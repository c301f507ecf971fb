-- ===== src/Base/Paths.antt =====
-- `PurePosixPath(s).name` and `.suffix` of Python's pathlib.
use mathlib.Core.Path.{◌≡◌, refl}
use mathlib.Core.Bool.{◌||◌}
use mathlib.Core.Option.{Option, none, some}
use mathlib.Core.List.{List, [], ◌∷◌, reverse}
use eval_ledger.Base.Tests.{◌==◌, if◌then◌else◌}
use eval_ledger.Base.Texts.{Text, codes, text_eq, is_empty, split}

last_part : Text → List Text → Text
last_part last [] = last
last_part last (p ∷ ps) = last_part (if is_empty p || text_eq p (codes ".") then last else p) ps

-- The last component that is neither empty nor ".".
unfoldable pub path_name : Text → Text
unfolding last_part split
path_name s = last_part [] (split b'/' s)

-- What stands before the first dot of a text, in reverse, and what follows it.
dot_loop : Text → Text → Option (Text × Text)
dot_loop before [] = none
dot_loop before (c ∷ s) =
    let rest = dot_loop (c ∷ before) s in if c == b'.' then some (before, s) else rest

-- The last dot of the name with what follows it, if something stands on either side of it.
suffix_parts : Option (Text × Text) → Text
suffix_parts none = []
suffix_parts (some ([], stem)) = []
suffix_parts (some (c ∷ ext, [])) = []
suffix_parts (some (c ∷ ext, d ∷ stem)) = b'.' ∷ c ∷ ext

unfoldable pub suffix_of : Text → Text
unfolding path_name dot_loop suffix_parts
suffix_of s = suffix_parts (dot_loop [] (reverse (path_name s)))

suffix_of_example : suffix_of (codes "a/b.tar.GZ") ≡ codes ".GZ"
unfolding suffix_of
suffix_of_example = refl

suffix_of_hidden : suffix_of (codes "dir/.env") ≡ codes ""
unfolding suffix_of
suffix_of_hidden = refl

path_name_example : path_name (codes "../x/./y/") ≡ codes "y"
unfolding path_name
path_name_example = refl
