-- ===== src/FilePath.antt =====
-- What the API uses of path/filepath on Unix: Clean, Join and Dir.
pub mod Laws
pub mod Names
use railway.Base.{ℕ, Bool, true, false, ◌||◌, List, [], ◌∷◌, ◌++◌, ◌==◌, if◌then◌else◌}
use railway.Text.{Text, codes, is_empty, text_eq}

abbrev push : ℕ → List Text → List Text
push c [] = (c ∷ []) ∷ []
push c (e ∷ es) = (c ∷ e) ∷ es

-- strings.Split(p, "/"), which has one element at least.
unfoldable pub elements : Text → List Text
elements [] = [] ∷ []
elements (c ∷ p) = let rest = elements p in if c == b'/' then [] ∷ rest else push c rest

abbrev pub up : Text
up = codes ".."

-- Where .. leads from a path: the elements of a path are a stack, the last on top.
abbrev parent : Bool → List Text → List Text
parent rooted [] = if rooted then [] else up ∷ []
parent rooted (top ∷ rest) = if text_eq top up then up ∷ top ∷ rest else rest

-- An element of a path, behind the others.
unfoldable pub enter : Bool → List Text → Text → List Text
enter rooted stack e =
    if is_empty e || text_eq e (codes ".")
    then stack
    else if text_eq e up
    then parent rooted stack
    else e ∷ stack

abbrev pub walk : Bool → List Text → List Text → List Text
walk rooted stack [] = stack
walk rooted stack (e ∷ es) = walk rooted (enter rooted stack e) es

abbrev pub is_rooted : Text → Bool
is_rooted [] = false
is_rooted (c ∷ p) = c == b'/'

-- Where a path leads: from the root or not, and the elements, without . and with .. only where a path
-- that is not from the root goes up.
unfoldable pub resolve : Text → Bool × List Text
resolve p = (is_rooted p, walk (is_rooted p) [] (elements p))

abbrev pub spell : Text → List Text → Text
spell e [] = e
spell e (f ∷ rest) = spell f rest ++ (b'/' ∷ e)

abbrev pub render : Bool × List Text → Text
render (false, []) = codes "."
render (true, []) = codes "/"
render (false, e ∷ rest) = spell e rest
render (true, e ∷ rest) = b'/' ∷ spell e rest

-- filepath.Clean(p)
unfoldable pub clean : Text → Text
clean p = render (resolve p)

-- filepath.Join(a, b)
unfoldable pub join : Text → Text → Text
join a b = if is_empty a then (if is_empty b then [] else clean b) else clean (a ++ (b'/' ∷ b))

-- p up to its last slash, with it.
unfoldable pub up_to_slash : Text → Text
up_to_slash [] = []
up_to_slash (c ∷ p) =
    let rest = up_to_slash p in
    if is_empty rest then (if c == b'/' then c ∷ [] else []) else c ∷ rest

-- filepath.Dir(p)
unfoldable pub dir : Text → Text
dir p = clean (up_to_slash p)
