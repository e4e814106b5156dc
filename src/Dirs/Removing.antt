-- ===== src/Dirs/Removing.antt =====
-- What `RemoveDir` leaves behind, pwrapis/src/utils.c.
use Prim.Native.Nat.{max}
use powerapi.Prelude.{
  ℕ, suc, ◌+◌, ◌≤◌, ◌≡◌, ◌≢◌, ◌↔◌, refl, Bool, true, false, ◌&&◌, Option, none, some, arith, leb,
  inl, inr, ◌⊎◌, ◌<◌,
}
use powerapi.Prelude.Int.{pos}
use powerapi.Codes.{success}
use powerapi.Dirs.{
  Entry, file, dir, other, dangling, Entries, nil, cons, rmdir, keep, remove_dir, remove_entries,
  max_recu_dp,
}

-- Whether all that the tree holds can be deleted, and how deep it is.
unfoldable mutual
  pub deletable : Entry → Bool
  deletable (file d) = d
  deletable (dir d es) = d && all_deletable es
  deletable other = false
  deletable dangling = false

  pub all_deletable : Entries → Bool
  all_deletable nil = true
  all_deletable (cons e es) = deletable e && all_deletable es

unfoldable mutual
  pub height : Entry → ℕ
  height (file d) = 0
  height (dir d es) = height_below es
  height other = 0
  height dangling = 0

  pub height_below : Entries → ℕ
  height_below nil = 0
  height_below (cons e es) = max (suc (height e)) (height_below es)

abbrev gone : Option Entry → Bool
gone none = true
gone (some e) = false

abbrev empty : Entries → Bool
empty nil = true
empty (cons e es) = false

empty-keep : (o : Option Entry) (es : Entries) → empty (keep o es) ≡ (gone o && empty es)
empty-keep none es = refl
empty-keep (some e) es = refl

gone-rmdir : (d : Bool) (es : Entries) → gone (rmdir d es) ≡ (d && empty es)
gone-rmdir true nil = refl
gone-rmdir false nil = refl
gone-rmdir true (cons e es) = refl
gone-rmdir false (cons e es) = refl

mutual
  unfolding remove_dir deletable height

  gone-remove_dir :
      (d : ℕ) (e : Entry)
      → gone (remove_dir d e).1 ≡ (deletable e && leb (d + height e) max_recu_dp)
  gone-remove_dir d (file b) = ground arith
  gone-remove_dir d (dir b es) =
      ground (arith, gone-rmdir b (remove_entries (d + 1) es), empty-remove_entries d es)
  gone-remove_dir d other = ground arith
  gone-remove_dir d dangling = ground arith

  empty-remove_entries :
      (d : ℕ) (es : Entries)
      → d ≤ max_recu_dp
      → empty (remove_entries (d + 1) es)
        ≡ (all_deletable es && leb (d + height_below es) max_recu_dp)
  empty-remove_entries d nil h = ground arith
  empty-remove_entries d (cons e es) h = ground (
    arith,
    empty-keep (remove_dir (d + 1) e).1 (remove_entries (d + 1) es),
    gone-remove_dir (d + 1) e,
    empty-remove_entries d es h,
  )

-- `RemoveDir`, called for an entry at depth `d`, leaves nothing of it exactly if all that it holds
-- can be deleted and no part of it lies deeper than MAX_RECU_DP.
pub remove_dir_gone :
    (d : ℕ) (e : Entry)
    → ((remove_dir d e).1 ≡ none) ↔ ((deletable e ≡ true) × (d + height e ≤ max_recu_dp))
remove_dir_gone d e = (
  λ h. ground (arith, gone-remove_dir d e),
  λ h.
      elim ((remove_dir d e).1) as (λ o. gone o ≡ true → o ≡ none) [
        | none ↦ λ g. refl
        | some x ↦ λ g. absurd (cc)
      ]
        (ground (arith, gone-remove_dir d e)),
)

-- For a directory that is itself not too deep, but holds something that cannot be deleted or lies too
-- deep, `RemoveDir` reports success although not all of it is gone.
pub remove_dir_silent :
    (d : ℕ) (b : Bool) (es : Entries)
    → d ≤ max_recu_dp
    → (deletable (dir b es) ≡ false) ⊎ (max_recu_dp < d + height (dir b es))
    → ((remove_dir d (dir b es)).0 ≡ pos success) × ((remove_dir d (dir b es)).1 ≢ none)
unfolding remove_dir
remove_dir_silent d b es h (inl bad) =
    (ground arith, λ g. ground (arith, (remove_dir_gone d (dir b es)).0 g))
remove_dir_silent d b es h (inr deep) =
    (ground arith, λ g. ground (arith, (remove_dir_gone d (dir b es)).0 g))
