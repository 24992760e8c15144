-- ===== src/Prelude/FilePath.antt =====
-- Package path of Go's standard library over slash-separated texts: Clean, IsAbs and Join of two.
use Prim.Native.String.{String}
use mathlib.Core.Bool.{Bool, ◌||◌}
use mathlib.Core.List.{List, [], ◌∷◌, reverse}
use ocular.Prelude.Tests.{if◌then◌else◌}
use ocular.Prelude.Split.{split_on}
use ocular.Prelude.Text.{◌=ˢ◌, concat, has_prefix}

-- the elements of a path
unfoldable pub split : String → List String
unfolding split_on
split s = split_on b'/' s

abbrev is_up : String → Bool
is_up s = s =ˢ ".."

-- an element on the stack of those kept, the last one first
unfoldable pub keep : Bool → List String → String → List String
keep rooted stack part =
    if part =ˢ "" || part =ˢ "." then stack else if is_up part then pop stack else part ∷ stack
  where
    pop : List String → List String
    pop [] = if rooted then [] else ".." ∷ []
    pop (top ∷ rest) = if is_up top then ".." ∷ top ∷ rest else rest

unfoldable pub keep_all : Bool → List String → List String → List String
unfolding keep
keep_all rooted stack [] = stack
keep_all rooted stack (part ∷ parts) = keep_all rooted (keep rooted stack part) parts

unfoldable pub join_all : List String → String
join_all [] = ""
join_all (s ∷ rest) = after rest (join_all rest)
  where
    after : List String → String → String
    after [] joined = s
    after (t ∷ ts) joined = concat s (concat "/" joined)

-- path.IsAbs
unfoldable pub is_abs : String → Bool
is_abs s = has_prefix s "/"

-- path.Clean
unfoldable pub clean : String → String
unfolding split keep_all join_all is_abs
clean s =
    let rooted = is_abs s in
    let body = join_all (reverse (keep_all rooted [] (split s))) in
    if rooted then concat "/" body else if body =ˢ "" then "." else body

-- path.Join(a, b): an element that is empty is left out
unfoldable pub join : String → String → String
unfolding clean
join a b =
    if a =ˢ ""
    then (if b =ˢ "" then "" else clean b)
    else if b =ˢ ""
    then clean a
    else clean (concat a (concat "/" b))
