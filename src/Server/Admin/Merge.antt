-- ===== src/Server/Admin/Merge.antt =====
-- The names after a source is put into the configuration or dropped from it.
use geoverse_map_server.Base.{
  ◌≡◌, refl, sym, ap, subst, false, List, [], ◌∷◌, ◌++◌, arith, if◌then◌else◌,
}
use geoverse_map_server.Base.Strings.{same, listed}
use geoverse_map_server.Base.Text.{Text, text_eq}
use geoverse_map_server.Config.{Source}
use geoverse_map_server.Config.Loop.{source_names}
use geoverse_map_server.Registry.{drop_first}
use geoverse_map_server.Registry.Invariant.{DistinctNames}
use geoverse_map_server.Server.Admin.{put_source, drop_source}

-- A source takes the place of the one of its name, or the last place; the flag tells which.
pub put_source-names :
    (sc : Source) (ss : List Source)
    → (source_names (put_source sc ss).0 ≡ (
        if listed sc.name (source_names ss)
        then source_names ss
        else source_names ss ++ sc.name ∷ []))
      × ((put_source sc ss).1 ≡ listed sc.name (source_names ss))
unfolding put_source listed same
put_source-names sc [] = (refl, refl)
put_source-names sc (s ∷ ss) =
    let (named, found) = put_source-names sc ss in
    elim (text_eq s.name sc.name) [
      | yes e ↦ (ground (arith, ap (λ n. n ∷ source_names ss) (sym e)), ground arith)
      | no n ↦ (ground (arith, named), ground (arith, found))
    ]

-- A dropped name that is not there changes nothing.
drop_source-absent :
    (name : Text) (ss : List Source)
    → listed name (source_names ss) ≡ false
    → source_names (drop_source name ss).0 ≡ source_names ss
unfolding drop_source listed same
drop_source-absent name [] h = refl
drop_source-absent name (s ∷ ss) h = ground (arith, drop_source-absent name ss)

-- Of a list with no name twice, all sources of a name are the first one of it.
pub drop_source-names :
    (name : Text) (ss : List Source)
    → DistinctNames (source_names ss)
    → (source_names (drop_source name ss).0 ≡ drop_first name (source_names ss))
      × ((drop_source name ss).1 ≡ listed name (source_names ss))
unfolding drop_source listed same drop_first
drop_source-names name [] d = (refl, refl)
drop_source-names name (s ∷ ss) (absent, d) =
    let (named, found) = drop_source-names name ss d in
    elim (text_eq s.name name) [
      | yes e ↦
          let gone =
            drop_source-absent name ss (subst (λ x. listed x (source_names ss) ≡ false) e absent) in
          (ground (arith, gone), ground arith)
      | no n ↦ (ground (arith, named), ground (arith, found))
    ]
