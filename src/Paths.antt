-- ===== src/Paths.antt =====
-- src/path.rs: root-relative paths. A text is the list of its UTF-8 bytes; `NfsPath` has one field,
-- its components, and stands as their list. A slice `&path[start..end]` of the text is cut at slashes
-- and at ends only, so it never splits a character; it stands as `slice`.
use nfs_crust.Prelude.{
  ℕ, zero, suc, ◌-◌, Bool, true, false, ◌&&◌, ◌||◌, Option, none, some, List, [], ◌∷◌, ◌++◌, length,
  take, drop, ◌==◌, ltb, if◌then◌else◌,
}
use nfs_crust.Result.{Result, ok, err}
use nfs_crust.Result.Try.{◌>>=◌, ◌>>◌}
use nfs_crust.Error.{Error}

abbrev pub NfsPath : Type 0
NfsPath = List (List ℕ)

-- ".nfs-crust-tmp-"
abbrev pub temp_file_prefix : List ℕ
temp_file_prefix =
    46 ∷ 110 ∷ 102 ∷ 115 ∷ 45 ∷ 99 ∷ 114 ∷ 117 ∷ 115 ∷ 116 ∷ 45 ∷ 116 ∷ 109 ∷ 112 ∷ 45 ∷ []

unfoldable pub starts_with : List ℕ → List ℕ → Bool
starts_with value [] = true
starts_with [] (p ∷ prefix) = false
starts_with (c ∷ value) (p ∷ prefix) = c == p && starts_with value prefix

unfoldable pub bytes_eq : List ℕ → List ℕ → Bool
bytes_eq [] [] = true
bytes_eq (a ∷ as') (b ∷ bs) = a == b && bytes_eq as' bs
bytes_eq _ _ = false

-- Whether `find` finds a component of the reserved prefix.
unfoldable pub any_reserved : List (List ℕ) → Bool
any_reserved [] = false
any_reserved (c ∷ components) = starts_with c temp_file_prefix || any_reserved components

unfoldable pub validate_user_components : List (List ℕ) → Result Error (Unit {0})
validate_user_components components =
    if any_reserved components then err Error.invalid_path else ok tt

abbrev pub slash : ℕ
slash = 47

unfoldable pub slice : List ℕ → ℕ → ℕ → List ℕ
slice bytes start end = take (end - start) (drop start bytes)

-- `while start < bytes.len() && bytes[start] == b'/' { start += 1; }` over what is left of `bytes`.
unfoldable pub skip_leading : List ℕ → ℕ → ℕ
skip_leading [] start = start
skip_leading (b ∷ rest) start = if b == slash then skip_leading rest (suc start) else start

-- `bytes[index]`, where `index` is in range.
unfoldable pub byte_at : List ℕ → ℕ → ℕ
byte_at [] index = 0
byte_at (b ∷ rest) zero = b
byte_at (b ∷ rest) (suc index) = byte_at rest index

-- `while end > start && bytes[end - 1] == b'/' { end -= 1; }`
unfoldable pub skip_trailing : List ℕ → ℕ → ℕ → ℕ
unfolding byte_at
skip_trailing bytes start zero = zero
skip_trailing bytes start (suc end) =
    let rest = skip_trailing bytes start end in
    if ltb start (suc end) && byte_at bytes end == slash then rest else suc end

unfoldable pub push_component : List ℕ → ℕ → ℕ → List (List ℕ) → Result Error (List (List ℕ))
push_component path start end components =
    let component = slice path start end in
    if bytes_eq component (46 ∷ []) || bytes_eq component (46 ∷ 46 ∷ [])
    then err Error.invalid_path
    else ok (components ++ (component ∷ []))

-- The `for` loop over `bytes[start..end]`: what is left of it, the index, the start of the component
-- at hand, and the components so far. It returns the last two.
unfoldable pub scan_components :
    List ℕ → List ℕ → ℕ → ℕ → List (List ℕ) → Result Error (ℕ × List (List ℕ))
scan_components value [] index component_start components = ok (component_start, components)
scan_components value (byte ∷ rest) index component_start components =
    let stay = scan_components value rest (suc index) component_start components in
    if byte == 0
    then err Error.invalid_path
    else if byte == slash
    then (if index == component_start then err Error.invalid_path else do
      pushed ← push_component value component_start index components
      scan_components value rest (suc index) (suc index) pushed)
    else stay

unfoldable pub parse_components : List ℕ → Result Error NfsPath
parse_components value =
    let start = skip_leading value 0 in
    let end = skip_trailing value start (length value) in
    if start == end then ok [] else do
      (component_start, components) ← scan_components value (slice value start end) start start []
      push_component value component_start end components

unfoldable pub parse_export : List ℕ → Result Error NfsPath
unfolding parse_components
parse_export export = parse_components export

unfoldable pub directory : List ℕ → Result Error NfsPath
directory path = do parsed ← parse_components path; validate_user_components parsed; ok parsed

unfoldable pub file : List ℕ → Result Error NfsPath
file path = do
  parsed ← parse_components path
  if length parsed == 0 then err Error.invalid_path else ok tt
  validate_user_components parsed
  ok parsed

-- `split_last`: the components before the last one, and the last one.
unfoldable pub split_last : List (List ℕ) → Option (List (List ℕ) × List ℕ)
split_last [] = none
split_last (c ∷ []) = some ([], c)
split_last (c ∷ d ∷ rest) = elim (split_last (d ∷ rest)) [
  | none ↦ none
  | some (parent, name) ↦ some (c ∷ parent, name)
]

unfoldable pub parent_and_name : NfsPath → Result Error (List (List ℕ) × List ℕ)
parent_and_name path = elim (split_last path) [
  | none ↦ err Error.invalid_path
  | some split ↦ ok split
]
