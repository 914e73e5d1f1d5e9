-- ===== src/Base/Path.antt =====
-- Paths of files: Go's `strings.Split` at slashes, and `filepath.Clean`, `Join` and `Base` (with
-- slashes as separators).
use Prim.Native.String
use text.Mathlib.Text.{find?, get?}
use mathlib.Core.List.{reverse}
use kubevela_catalog.Base.{
  ℕ, zero, suc, ◌+◌, String, List, [], ◌∷◌, Option, none, some, Bool, not, ◌&&◌, ◌||◌, ◌≡◌, refl,
  str_eq, ◌<>◌, has_prefix, if◌then◌else◌,
}

abbrev text_or_empty : Option String → String
text_or_empty none = ""
text_or_empty (some s) = s

-- the part of a text from one position to another
abbrev slice : String → ℕ → ℕ → String
slice s i j = text_or_empty (get? s i j)

-- the texts before and after the first slash, if there is one
abbrev cut : String → Option (String × String)
cut s = elim (find? s "/") [
  | none ↦ none
  | some i ↦ some (slice s 0 i, slice s (i + 1) (String.len s))
]

-- strings.Split(s, "/"); a text has fewer slashes than its length and one, which is the fuel
split_from : ℕ → String → List String
split_from zero s = s ∷ []
split_from (suc fuel) s = elim (cut s) [
  | none ↦ s ∷ []
  | some (part, rest) ↦ part ∷ split_from fuel rest
]

unfoldable pub split : String → List String
unfolding split_from
split s = split_from (suc (String.len s)) s

unfoldable pub join_with_slashes : List String → String
join_with_slashes [] = ""
join_with_slashes (e ∷ []) = e
join_with_slashes (e ∷ f ∷ rest) = e <> "/" <> join_with_slashes (f ∷ rest)

-- One element of a path, onto the elements before it, the last one first: ".." takes one off.
abbrev push : Bool → List String → String → List String
push rooted [] e =
    if str_eq e "" || str_eq e "." then [] else if rooted && str_eq e ".." then [] else e ∷ []
push rooted (top ∷ rest) e =
    if str_eq e "" || str_eq e "."
    then top ∷ rest
    else if str_eq e ".." && not (str_eq top "..")
    then rest
    else e ∷ top ∷ rest

clean_onto : Bool → List String → List String → List String
clean_onto rooted stack [] = stack
clean_onto rooted stack (e ∷ es) = clean_onto rooted (push rooted stack e) es

abbrev or_dot : String → String
or_dot s = if str_eq s "" then "." else s

-- filepath.Clean
unfoldable pub clean : String → String
unfolding split join_with_slashes clean_onto has_prefix
clean s =
    let rooted = has_prefix s "/" in
    let path = join_with_slashes (reverse (clean_onto rooted [] (split s))) in
    if rooted then "/" <> path else or_dot path

-- the elements that are not empty
abbrev non_empty_elements : List String → List String
non_empty_elements [] = []
non_empty_elements (e ∷ es) =
    let rest = non_empty_elements es in if str_eq e "" then rest else e ∷ rest

abbrev clean_elements : List String → String
clean_elements [] = ""
clean_elements (e ∷ es) = clean (join_with_slashes (e ∷ es))

-- filepath.Join
unfoldable pub join : List String → String
join es = clean_elements (non_empty_elements es)

abbrev last_of : List String → String → String
last_of [] found = found
last_of (e ∷ es) found = last_of es e

-- filepath.Base: the last element, without the slashes at the end
unfoldable pub base : String → String
unfolding split
base s =
    if str_eq s ""
    then "."
    else (let last = last_of (non_empty_elements (split s)) "" in
        if str_eq last "" then "/" else last)

-- up to the last slash, which is included
abbrev to_last_slash : List String → String
to_last_slash [] = ""
to_last_slash (e ∷ []) = ""
to_last_slash (e ∷ f ∷ rest) = e <> "/" <> to_last_slash (f ∷ rest)

-- filepath.Dir
unfoldable pub dir : String → String
unfolding split
dir s = clean (to_last_slash (split s))

-- strings.Split(s, sep)[1], for a text with the prefix sep: what is between it and the next one
unfoldable pub after_prefix : String → String → String
after_prefix s sep =
    let rest = slice s (String.len sep) (String.len s) in
    elim (find? rest sep) [ none ↦ rest | some i ↦ slice rest 0 i ]

split_runs : split "addons/fluxcd//x" ≡ "addons" ∷ "fluxcd" ∷ "" ∷ "x" ∷ []
unfolding split
split_runs = refl

join_runs : join ("addons" ∷ "" ∷ "a/../b" ∷ "metadata.yaml" ∷ []) ≡ "addons/b/metadata.yaml"
unfolding join clean split join_with_slashes has_prefix
join_runs = refl

join_above : join (".." ∷ ".." ∷ "x" ∷ ".." ∷ []) ≡ "../.."
unfolding join clean split join_with_slashes has_prefix
join_above = refl

base_runs : base "addons/velaux/" ≡ "velaux"
unfolding base split
base_runs = refl

dir_runs : (dir "/a/b/c.yaml" ≡ "/a/b") × (dir "c.yaml" ≡ ".") × (dir "/c" ≡ "/")
unfolding dir clean split join_with_slashes has_prefix
dir_runs = (refl, refl, refl)

after_prefix_runs :
    (after_prefix "terraform-oss.yaml" "terraform-" ≡ "oss.yaml")
    × (after_prefix "terraform-a-terraform-b" "terraform-" ≡ "a-")
unfolding after_prefix
after_prefix_runs = (refl, refl)
