-- ===== src/Libc/Strings.antt =====
-- Text functions of libc-main.cpp. A text is the list of its bytes before the final zero.
use ikan_osv5_student.Prelude.{
  ℕ, ◌≡◌, refl, Bool, true, false, List, [], ◌∷◌, arith, ◌==◌, if◌then◌else◌,
}

-- `strcmp(a, b) == 0`
unfoldable pub same_text : List ℕ → List ℕ → Bool
same_text [] [] = true
same_text [] (d ∷ b) = false
same_text (c ∷ a) [] = false
same_text (c ∷ a) (d ∷ b) = if c == d then same_text a b else false

-- What `strcpyRemoveNewline` copies.
unfoldable pub remove_newline : List ℕ → List ℕ
remove_newline [] = []
remove_newline (c ∷ text) = if c == b'\n' then [] else c ∷ remove_newline text

pub same_text_refl : (a : List ℕ) → same_text a a ≡ true
unfolding same_text
same_text_refl [] = refl
same_text_refl (c ∷ a) = ground (arith, same_text_refl a)
