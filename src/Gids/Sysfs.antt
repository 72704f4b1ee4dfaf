-- ===== src/Gids/Sysfs.antt =====
-- Reading a line of sysfs.
use dlslime.Prelude.{
  ℕ, zero, suc, ◌≤◌, ◌≡◌, refl, ap, some, List, [], ◌∷◌, ◌++◌, length, take, length-append, arith,
  pos, negsuc, ◌==◌, if◌then◌else◌,
}
use dlslime.Gids.{contents, read_sysfs_file, split_last, terminate, newline, cons_front}

take_all : (n : ℕ) (bytes : List ℕ) → length bytes ≤ n → take n bytes ≡ bytes
take_all zero [] h = refl
take_all zero (b ∷ bytes) h = absurd (omega arith)
take_all (suc n) [] h = refl
take_all (suc n) (b ∷ bytes) h = ap (λ l. b ∷ l) (take_all n bytes (omega arith))

take-append : (front rest : List ℕ) → take (length front) (front ++ rest) ≡ front
take-append [] rest = refl
take-append (b ∷ front) rest = ap (λ l. b ∷ l) (take-append front rest)

split_last-append : (front : List ℕ) (b : ℕ) → split_last (front ++ b ∷ []) ≡ some (front, b)
split_last-append [] b = refl
split_last-append (a ∷ front) b = ap (cons_front a) (split_last-append front b)

read_full :
    (text : List ℕ) (b : ℕ) (rest : List ℕ)
    → take (suc (length text)) ((text ++ b ∷ []) ++ rest) ≡ text ++ b ∷ []
read_full text b rest =
    let long : length (text ++ b ∷ []) ≡ suc (length text) =
      omega (arith, length-append text (b ∷ [])) in
    rw (← long) (take-append (text ++ b ∷ []) rest)

-- A file of one line, text and newline, that fits the buffer is read without its newline. A file
-- that fills the buffer is read as the text before its last byte in the buffer, if that is a newline,
-- and is an error otherwise.
pub read_sysfs_file-line :
    (text : List ℕ) (b size : ℕ) (rest : List ℕ)
    → suc (length text) ≤ size
    → (read_sysfs_file (contents (text ++ newline ∷ [])) size
        ≡ record { ret = pos (length text); buf = text; errno = 0 })
      × ((read_sysfs_file (contents ((text ++ b ∷ []) ++ rest)) (suc (length text))).ret
          ≡ (if b == newline then pos (length text) else negsuc 0))
unfolding read_sysfs_file terminate
read_sysfs_file-line text b size rest fits =
    let line =
      take_all size (text ++ newline ∷ []) (omega (arith, length-append text (newline ∷ []))) in
    (
      rw (line, split_last-append text newline) refl,
      rw (read_full text b rest, split_last-append text b)
          (ground (arith, length-append text (b ∷ []))),
    )
