-- ===== src/Policy/Owners.antt =====
-- ResolveOwners of internal/policy/owners.go. The map from directories to owners is an association
-- list in the order in which the loop visits it, which Go leaves open; the length of a text is in
-- bytes.
use Prim.Native.Char.{len_utf8}
use docstore.Base.{
  ℕ, ◌+◌, String, Bool, true, Option, none, some, List, [], ◌∷◌, ◌==◌, ltb, if◌then◌else◌,
}
use docstore.Base.Text.{append, has_prefix}

unfoldable pub byte_len : String → ℕ
byte_len String.[] = 0
byte_len (String.◌∷◌ c s) = len_utf8 c + byte_len s

abbrev pub OwnersMap : Type 0
OwnersMap = List (String × List String)

unfoldable pub lookup : String → OwnersMap → Option (List String)
lookup k [] = none
lookup k (e ∷ es) = if e.0 == k then some e.1 else lookup k es

-- How much of the path a directory matches: none when the loop continues with the next key.
unfoldable pub match_len : String → String → Option ℕ
match_len file_path k =
    if k == ""
    then some 0
    else if has_prefix (append k "/") file_path
    then some (byte_len k)
    else none

-- Whether a length is greater than the best one so far, of which none is -1.
unfoldable pub exceeds : ℕ → Option ℕ → Bool
exceeds n none = true
exceeds n (some m) = ltb m n

unfoldable pub improve : String → Option ℕ → String × Option ℕ → String × Option ℕ
improve k none best = best
improve k (some n) best = if exceeds n best.1 then (k, some n) else best

unfoldable pub best_match : String → OwnersMap → String × Option ℕ → String × Option ℕ
best_match file_path [] best = best
best_match file_path (e ∷ es) best =
    best_match file_path es (improve e.0 (match_len file_path e.0) best)

unfoldable pub owners_of : OwnersMap → String × Option ℕ → Option (List String)
owners_of owners_map (key, none) = none
owners_of owners_map (key, some n) = lookup key owners_map

-- none is nil.
unfoldable pub resolve_owners : OwnersMap → String → Option (List String)
resolve_owners owners_map file_path =
    owners_of owners_map (best_match file_path owners_map ("", none))
