-- ===== src/Name.antt =====
-- Message names: kbus_bad_message_name, kbus_wildcarded_message_name, kbus_invalid_message_name and
-- kbus_message_name_matches of kbus/kbus_main.c. A name is its bytes. `isalnum` is the kernel's, a
-- parameter.
use kbus.Prelude.{
  ℕ, zero, suc, ◌+◌, ◌-◌, Bool, true, false, not, ◌&&◌, ◌||◌, List, ◌==◌, ltb, if◌then◌else◌, drop,
}
use kbus.CString.{byte_at, strlen, strncmp_eq, strnchr_found}

module _ (isalnum : ℕ → Bool) where
  -- The loop of kbus_bad_message_name, with `left` bytes still to look at. `true` is "naughty".
  unfoldable pub scan : List ℕ → ℕ → ℕ → ℕ → Bool
  scan name zero ii dot_at = false
  scan name (suc left) ii dot_at =
      let rest = scan name left (ii + 1) (if byte_at name ii == b'.' then ii else dot_at) in
      if byte_at name ii == b'.'
      then if dot_at == ii - 1 then true else rest
      else if not (isalnum (byte_at name ii))
      then true
      else rest

  -- `name_len` without a wildcard at the end.
  unfoldable pub stem_len : List ℕ → ℕ → ℕ
  stem_len name name_len =
      if byte_at name (name_len - 2) == b'.' && byte_at name (name_len - 1) == b'*'
      then name_len - 2
      else if byte_at name (name_len - 2) == b'.' && byte_at name (name_len - 1) == b'%'
      then name_len - 2
      else name_len

  unfoldable pub bad_message_name : List ℕ → ℕ → Bool
  unfolding scan stem_len
  bad_message_name name name_len =
      if ltb name_len 3
      then true
      else if not (byte_at name 0 == b'$') || not (byte_at name 1 == b'.')
      then true
      else if byte_at name (stem_len name name_len - 1) == b'.'
      then true
      else scan name (stem_len name name_len - 2) 2 1

  unfoldable pub wildcarded_message_name : List ℕ → ℕ → Bool
  wildcarded_message_name name name_len =
      byte_at name (name_len - 1) == b'*' || byte_at name (name_len - 1) == b'%'

  unfoldable pub invalid_message_name : List ℕ → ℕ → Bool
  unfolding bad_message_name wildcarded_message_name
  invalid_message_name name name_len =
      if bad_message_name name name_len
      then true
      else if wildcarded_message_name name name_len
      then true
      else false

unfoldable pub message_name_matches : List ℕ → ℕ → List ℕ → Bool
unfolding strlen strncmp_eq strnchr_found
message_name_matches name name_len other =
    let other_len = strlen other in
    let last = byte_at other (other_len - 1) in
    if last == b'*' || last == b'%'
    then if ltb name_len other_len
      then false
      else if not (strncmp_eq (other_len - 1) other name)
      then false
      else if last == b'*'
      then true
      else if strnchr_found (drop (other_len - 1) name) (name_len + 1 - other_len) b'.'
      then false
      else true
    else if not (name_len == other_len)
    then false
    else strncmp_eq name_len name other
