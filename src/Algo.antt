-- ===== src/Algo.antt =====
-- internal/algo/algo.go: the registry of algorithms, in the order in which they are registered, and
-- in Run the requests of internal/server/algorithms.go. `none` is a panic: a name registered twice,
-- or a name in the order that has no algorithm.
pub mod Laws
pub mod Run
mod Tests
use geoverse_map_server.Base.{
  Bool, true, false, List, [], ◌∷◌, ◌++◌, Option, none, some, ite, ◌>>=◌,
}
use geoverse_map_server.Base.Dict.{Dict, lookup, insert}
use geoverse_map_server.Base.Results.{Result}
use geoverse_map_server.Base.Text.{Text, text_eq}

-- One error of a chain that wraps one in the other: `UserError` with its message, the two errors of a
-- context, and any other.
pub data Cause : Type 0 where
  user_error : Text → Cause
  canceled : Cause
  deadline_exceeded : Cause
  other : Text → Cause

-- What a run of an algorithm ends with: its JSON, or an error by its chain, the outermost in front.
abbrev pub Ran : Type 0
Ran = Result Text (List Cause)

-- `Descriptor`, by its name and the rest of its document.
pub record Descriptor : Type 0 where
  pub name : Text
  pub document : Text

-- `Algorithm`, in one environment.
pub record Algorithm : Type 0 where
  pub describe : Descriptor
  pub run : Text → Ran

pub record Registry : Type 0 where
  pub algos : Dict Text Algorithm
  pub order : List Text

-- `NewRegistry`
abbrev pub new_registry : Registry
new_registry = record { algos = []; order = [] }

-- `Register`
unfoldable pub register : Algorithm → Registry → Option Registry
register a r = elim (lookup text_eq a.describe.name r.algos) [
  | some dup ↦ none
  | none ↦ some (record {
    algos = insert text_eq a.describe.name a r.algos;
    order = r.order ++ a.describe.name ∷ [];
  })
]

-- The registrations of a server, one after the other.
unfoldable pub register_all : List Algorithm → Registry → Option Registry
register_all [] r = some r
register_all (a ∷ done) r = register a r >>= λ (next : Registry). register_all done next

-- `Get`
unfoldable pub get : Text → Registry → Option Algorithm
get name r = lookup text_eq name r.algos

-- `Names`
unfoldable pub names : Registry → List Text
names r = r.order

abbrev prepend : Algorithm → Option (List Descriptor) → Option (List Descriptor)
prepend a none = none
prepend a (some ds) = some (a.describe ∷ ds)

-- The loop of `Describe`.
unfoldable pub describe_from : Dict Text Algorithm → List Text → Option (List Descriptor)
describe_from m [] = some []
describe_from m (n ∷ ns) =
    let rest = describe_from m ns in
    elim (lookup text_eq n m) [ none ↦ none | some a ↦ prepend a rest ]

-- `Describe`
unfoldable pub describe : Registry → Option (List Descriptor)
describe r = describe_from r.algos r.order
