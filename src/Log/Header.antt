-- ===== src/Log/Header.antt =====
-- The header block: `write_head` and `read_head`.
use assignment1_cs.Base.{
  ℕ, suc, ◌≤◌, ◌<◌, ◌≡◌, refl, ap, List, [], ◌∷◌, length, take, drop, get_or, arith,
}
use assignment1_cs.Log.{overlay, read_head, write_head}
use assignment1_cs.Log.Device.{Block, Disk, bread, bwrite}

abbrev pub block_words : ℕ
block_words = 128

-- The block numbers that a header block names.
unfoldable pub decode : Block → List ℕ
decode lh = take (get_or lh 0 0) (drop 1 lh)

unfoldable pub encode : List ℕ → Block → Block
encode blocks lh = overlay (length blocks ∷ blocks) lh

pub length-overlay : (xs ys : List ℕ) → length (overlay xs ys) ≡ length ys
length-overlay [] ys = refl
length-overlay (x ∷ xs) [] = refl
length-overlay (x ∷ xs) (y ∷ ys) = ap suc (length-overlay xs ys)

take-overlay : (xs ys : List ℕ) → length xs ≤ length ys → take (length xs) (overlay xs ys) ≡ xs
take-overlay [] ys h = refl
take-overlay (x ∷ xs) [] h = absurd (omega arith)
take-overlay (x ∷ xs) (y ∷ ys) h = ap (λ t. x ∷ t) (take-overlay xs ys (omega arith))

pub decode-encode :
    (blocks : List ℕ) (lh : Block)
    → length lh ≡ block_words
    → length blocks < block_words
    → decode (encode blocks lh) ≡ blocks
unfolding decode encode
decode-encode blocks [] e h = absurd (omega arith)
decode-encode blocks (w ∷ ws) e h = take-overlay blocks ws (omega arith)

pub length-encode : (blocks : List ℕ) (lh : Block) → length (encode blocks lh) ≡ length lh
unfolding encode
length-encode blocks lh = length-overlay (length blocks ∷ blocks) lh

-- The operations of log.c in these terms.
pub read_head_lem : (start : ℕ) (d : Disk) → read_head start d ≡ decode (bread d start)
unfolding read_head decode
read_head_lem start d = refl

pub write_head_lem :
    (start : ℕ) (d : Disk) (blocks : List ℕ)
    → write_head start d blocks ≡ bwrite d start (encode blocks (bread d start))
unfolding write_head encode
write_head_lem start d blocks = refl
