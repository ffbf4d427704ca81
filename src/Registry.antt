-- ===== src/Registry.antt =====
-- internal/source/registry/registry.go: the configured sources by name, in configuration order,
-- and the retired ones, which stay open until shutdown. The backends are not under this module: a
-- source is a value of an abstract type, and the constructors of the backends and the type
-- assertions to the interfaces that a source may implement are arguments. An operation that closes
-- sources gives the list of those that it closed. `sort.Strings` is an argument.
pub mod Invariant
pub mod Build
pub mod Resources
mod Tests
use geoverse_map_server.Base.{
  ℕ, ◌≡◌, Bool, true, false, List, [], ◌∷◌, ◌++◌, Option, none, some, ite, ◌>>=◌, map,
}
use geoverse_map_server.Base.Dict.{Dict, lookup, insert, delete, keys}
use geoverse_map_server.Base.Text.{Text, str, text_eq}

-- `config.Source`, with the fields that the registry reads; the rest is the backends' own.
pub record SourceConfig : Type 0 where
  pub name : Text
  pub kind : Text
  pub asset_policy : ℕ
  pub db_policy : ℕ

-- A source or an error.
pub data Opened (S E : Type 0) : Type 0 where
  opened : S → Opened S E
  failed : E → Opened S E

-- What the registry takes from the backends: a constructor for each kind of source, the error for
-- an unknown kind, `Ping`, and the assertions to the two interfaces.
pub record Backends : Type 1 where
  pub Source : Type 0
  pub Error : Type 0
  pub TileSource : Type 0
  pub FeatureSource : Type 0
  pub postgis : SourceConfig → Opened Source Error
  pub mysql : SourceConfig → Opened Source Error
  pub mbtiles : SourceConfig → Opened Source Error
  pub pmtiles : SourceConfig → Opened Source Error
  pub geojson : SourceConfig → Opened Source Error
  pub geopackage : SourceConfig → Opened Source Error
  pub unknown : Text → Error
  pub ping : Source → Option Error
  pub as_tile : Source → Option TileSource
  pub as_feature : Source → Option FeatureSource

pub record Registry (S : Type 0) : Type 0 where
  pub sources : Dict Text S
  pub order : List Text
  pub retired : List S

abbrev pub empty : {S : Type 0} → Registry S
empty = record { sources = []; order = []; retired = [] }

-- The loop of `Remove`: the first occurrence in the order goes.
unfoldable pub drop_first : Text → List Text → List Text
drop_first name [] = []
drop_first name (n ∷ order) =
    let rest = drop_first name order in ite (text_eq n name) order (n ∷ rest)

module _ {S : Type 0} where
  -- `Replace`
  unfoldable pub replace : Text → S → Registry S → Registry S
  replace name replacement r = elim (lookup text_eq name r.sources) [
    | some old ↦ record r {
      sources = insert text_eq name replacement r.sources;
      retired = r.retired ++ old ∷ [];
    }
    | none ↦ record r {
      sources = insert text_eq name replacement r.sources;
      order = r.order ++ name ∷ [];
    }
  ]

  -- `Remove`
  unfoldable pub remove : Text → Registry S → Registry S × Bool
  remove name r = elim (lookup text_eq name r.sources) [
    | none ↦ (r, false)
    | some old ↦ (
      record {
        sources = delete text_eq name r.sources;
        order = drop_first name r.order;
        retired = r.retired ++ old ∷ [];
      },
      true,
    )
  ]

  -- `Get`
  unfoldable pub get : Text → Registry S → Option S
  get name r = lookup text_eq name r.sources

  -- `Names`
  unfoldable pub names : Registry S → List Text
  names r = r.order

  prepend : Option S → List S → List S
  prepend none l = l
  prepend (some s) l = s ∷ l

  -- The sources under some names, for those that are there.
  pub sources_at : Dict Text S → List Text → List S
  sources_at m [] = []
  sources_at m (n ∷ ns) = prepend (lookup text_eq n m) (sources_at m ns)

  -- `Close`: the registry after it, and the sources closed, in order.
  pub close : (List Text → List Text) → Registry S → Registry S × List S
  close sort r = (empty, sources_at r.sources (sort (keys r.sources)) ++ r.retired)

module _ (b : Backends) where
  open b use {
    Source, Error, TileSource, FeatureSource, postgis, mysql, mbtiles, pmtiles, geojson, geopackage,
    unknown, ping, as_tile, as_feature,
  }

  -- `OpenWithPolicies`
  unfoldable pub open_with_policies : SourceConfig → ℕ → ℕ → Opened Source Error
  open_with_policies given assets db_policy =
      let sc : SourceConfig = record given { asset_policy = assets; db_policy = db_policy } in
      ite (text_eq sc.kind (str "postgis")) (postgis sc) (
        ite (text_eq sc.kind (str "mysql")) (mysql sc) (
          ite (text_eq sc.kind (str "mbtiles")) (mbtiles sc) (
            ite (text_eq sc.kind (str "pmtiles")) (pmtiles sc) (
              ite (text_eq sc.kind (str "geojson")) (geojson sc) (
                ite (text_eq sc.kind (str "geopackage")) (geopackage sc)
                  (failed (unknown sc.kind)))))))

  -- The loop of `Build`, by the source that was opened for the head of the list. On an error the
  -- registry so far is closed; the second part of the result is what was closed.
  unfoldable pub build_from :
      (List Text → List Text)
      → ℕ
      → ℕ
      → Registry Source
      → List SourceConfig
      → Opened (Registry Source) (Error × List Source)
  build_from sort assets db_policy r [] = opened r
  build_from sort assets db_policy r (sc ∷ scs) = elim (open_with_policies sc assets db_policy) [
    | failed e ↦ failed (e, (close sort r).1)
    | opened s ↦
        build_from sort assets db_policy
          (record r {
            sources = insert text_eq sc.name s r.sources;
            order = r.order ++ sc.name ∷ [];
          })
          scs
  ]

  -- `Build`
  unfoldable pub build :
      (List Text → List Text)
      → ℕ
      → ℕ
      → List SourceConfig
      → Opened (Registry Source) (Error × List Source)
  build sort assets db_policy scs = build_from sort assets db_policy empty scs

  -- `TileSource` and `FeatureSource`
  pub tile_source : Text → Registry Source → Option TileSource
  tile_source name r = lookup text_eq name r.sources >>= λ (s : Source). as_tile s

  pub feature_source : Text → Registry Source → Option FeatureSource
  feature_source name r = lookup text_eq name r.sources >>= λ (s : Source). as_feature s

  -- The loops of `TileSources` and `FeatureSources`, in configuration order.
  collect : {T : Type 0} → (Source → Option T) → Dict Text Source → List Text → List T
  collect cast m [] = []
  collect cast m (n ∷ ns) =
      let rest = collect cast m ns in
      elim (lookup text_eq n m >>= λ (s : Source). cast s) [ none ↦ rest | some t ↦ t ∷ rest ]

  pub tile_sources : Registry Source → List TileSource
  tile_sources r = collect as_tile r.sources r.order

  pub feature_sources : Registry Source → List FeatureSource
  feature_sources r = collect as_feature r.sources r.order

  -- `Ping`
  pub ping_all : Registry Source → Dict Text (Option Error)
  ping_all r = map (λ (e : Text × Source). (e.0, ping e.1)) r.sources
