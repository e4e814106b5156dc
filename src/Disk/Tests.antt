-- ===== src/Disk/Tests.antt =====
-- Two disks in a file, and the theorems on them.
use powerapi.Prelude.{
  ℕ, ◌≡◌, refl, true, Option, some, List, [], ◌∷◌, ◌/◌, ◌%◌, get_or, set, take, drop,
}
use powerapi.Prelude.Int.{ℤ, pos, pos_part}
use powerapi.Codes.{success}
use powerapi.Text.Fields.{get_nth_field}
use powerapi.Files.{File, fgets}
use powerapi.Files.Values.{all_lines}
use powerapi.Disk.{read_disk_name, System, TimeKeeper, disk_rs, get_fd_val}
use powerapi.Disk.Collecting.{collect}
use powerapi.Disk.Listing.{read_disk_name_first}

-- `8 0 sda 1` and `8 1 b 2`, the first two numbers those of the device.
abbrev two_disks : List ℕ
two_disks =
    b'8' ∷ 32 ∷ b'0' ∷ 32 ∷ b's' ∷ b'd' ∷ b'a' ∷ 32 ∷ b'1' ∷ 10 ∷ b'8' ∷ 32 ∷ b'1' ∷ 32 ∷ b'b' ∷ 32
    ∷ b'2' ∷ 10 ∷ []

abbrev stats : File
stats = record { accessible = true; opens = true; bytes = two_disks; closes = true }

abbrev entries : List (List ℕ)
entries = (0 ∷ 0 ∷ 0 ∷ 0 ∷ []) ∷ (0 ∷ 0 ∷ 0 ∷ 0 ∷ []) ∷ []

-- The names `sda` and `b` become the name `bda`, and the second entry stays as it was.
names_mixed :
    read_disk_name stats entries 2
    ≡ (success, (b'b' ∷ b'd' ∷ b'a' ∷ 0 ∷ []) ∷ (0 ∷ 0 ∷ 0 ∷ 0 ∷ []) ∷ [])
unfolding read_disk_name all_lines
names_mixed = refl

read_disk_name_first_example :
    (entry : List ℕ) × (read_disk_name stats entries 2 ≡ (success, set entries 0 entry))
    × (take 1 entry ≡ b'b' ∷ [])
unfolding all_lines get_nth_field
read_disk_name_first_example =
    read_disk_name_first stats entries 1 (take 10 two_disks ∷ []) (drop 10 two_disks) (b'b' ∷ [])
      refl refl refl refl refl

-- One disk, with a counter that a digit gives.
abbrev digit : List ℕ → Option ℤ
digit text = some (pos (get_or text 0 48 % 48))

abbrev system : List ℕ → System
system line = record {
  stat = λ name. some (8, 0);
  matches = λ numbers name text. true;
  scan = digit;
  stat_file = record { accessible = true; opens = true; bytes = line; closes = true };
}

-- `8 0 a 1` and `8 0 a 7`.
abbrev line_of : ℕ → List ℕ
line_of d = b'8' ∷ 32 ∷ b'0' ∷ 32 ∷ b'a' ∷ 32 ∷ d ∷ 10 ∷ []

-- `io.a.r`, every 2 seconds.
abbrev reads : TimeKeeper
reads = record {
  period = 2;
  data_name = b'i' ∷ b'o' ∷ b'.' ∷ b'a' ∷ b'.' ∷ b'r' ∷ [];
  reserv = pos 0;
  reserv1 = 0;
}

abbrev whole : ℤ → ℕ
whole z = pos_part z

abbrev quotient : ℕ → ℕ → ℕ
quotient a b = a / b

three_per_second :
    (collect whole quotient
      (system (line_of b'7'))
      disk_rs
      (collect whole quotient (system (line_of b'1')) disk_rs reads).1).0
    ≡ 3
unfolding collect get_fd_val fgets
three_per_second = refl
