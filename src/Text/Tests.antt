-- ===== src/Text/Tests.antt =====
-- Fields and trims of short texts, with the space as separator.
use powerapi.Prelude.{ℕ, ◌≡◌, ◌↔◌, ◌≤◌, refl, Bool, some, List, [], ◌∷◌, ◌++◌, ◌==◌}
use powerapi.Text.{delete_char, delete_substr, rtrim}
use powerapi.Text.Fields.{get_nth_field, tokens, str_join}
use powerapi.Text.Fields.Tokens.{nth_token, get_nth_field-nth_token}
use powerapi.Text.Deleting.{without, delete_char-without}

abbrev space : ℕ → Bool
space c = c == 32

abbrev text : List ℕ
text = 32 ∷ b'a' ∷ b'b' ∷ 32 ∷ 32 ∷ b'c' ∷ []

deleted : delete_char text 32 ≡ b'a' ∷ b'b' ∷ b'c' ∷ []
unfolding delete_char
deleted = refl

-- A part that is deleted is made up for by as many bytes behind the terminator.
cut_out :
    delete_substr text (b'a' ∷ b'b' ∷ []) (1 ∷ 2 ∷ []) ≡ some (1, 32 ∷ 32 ∷ 32 ∷ b'c' ∷ 0 ∷ 1 ∷ [])
unfolding delete_substr
cut_out = refl

trimmed : rtrim (text ++ 32 ∷ []) ≡ text
unfolding rtrim
trimmed = refl

get_nth_field-nth_token_example :
    (get_nth_field text space 2 8 ≡ some (b'c' ∷ []))
    ↔ ((nth_token (tokens space text) 2 ≡ some (b'c' ∷ [])) × (1 ≤ 8))
get_nth_field-nth_token_example = get_nth_field-nth_token space text 2 8 (b'c' ∷ [])

abbrev items : List (List ℕ)
items = (b'a' ∷ b'b' ∷ []) ∷ (b'c' ∷ []) ∷ []

abbrev joined_text : List ℕ
joined_text = b'a' ∷ b'b' ∷ 32 ∷ 32 ∷ b'c' ∷ []

fits : str_join items (32 ∷ 32 ∷ []) 20 ≡ some joined_text
unfolding str_join
fits = refl

delete_char-without_example : delete_char text 32 ≡ without 32 text
delete_char-without_example =
    delete_char-without text 32 (refl, (refl, (refl, (refl, (refl, (refl, tt))))))
