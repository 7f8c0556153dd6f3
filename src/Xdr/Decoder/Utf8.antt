-- ===== src/Xdr/Decoder/Utf8.antt =====
-- `std::str::from_utf8`, as src/xdr.rs uses it: which bytes are UTF-8 (Unicode, table 3-7).
use nfs_crust.Prelude.{
  ℕ, zero, suc, Bool, true, false, ◌&&◌, Option, none, some, List, [], ◌∷◌, leb, ◌==◌,
  if◌then◌else◌,
}

within : ℕ → ℕ → ℕ → Bool
within lo hi b = leb lo b && leb b hi

-- What a first byte calls for: the range of the next byte, and how many bytes are to follow.
lead : ℕ → Option (ℕ × ℕ × ℕ)
unfolding within
lead b =
    if leb b 0x7f
    then some (0, 0, 0)
    else if within 0xc2 0xdf b
    then some (0x80, 0xbf, 1)
    else if b == 0xe0
    then some (0xa0, 0xbf, 2)
    else if b == 0xed
    then some (0x80, 0x9f, 2)
    else if within 0xe1 0xef b
    then some (0x80, 0xbf, 2)
    else if b == 0xf0
    then some (0x90, 0xbf, 3)
    else if within 0xf1 0xf3 b
    then some (0x80, 0xbf, 3)
    else if b == 0xf4
    then some (0x80, 0x8f, 3)
    else none

-- `due` bytes are to follow, the next of them within the two bounds.
scan : ℕ → ℕ → ℕ → List ℕ → Bool
unfolding lead
scan lo hi zero [] = true
scan lo hi (suc due) [] = false
scan lo hi zero (b ∷ rest) = elim (lead b) [
  | none ↦ false
  | some (lo', hi', due') ↦ scan lo' hi' due' rest
]
scan lo hi (suc due) (b ∷ rest) = within lo hi b && scan 0x80 0xbf due rest

unfoldable pub is_utf8 : List ℕ → Bool
unfolding scan
is_utf8 bytes = scan 0 0 0 bytes
