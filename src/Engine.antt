-- ===== src/Engine.antt =====
-- internal/source/memengine/memengine.go: the store of features in memory, its grid, its queries and
-- its pages. Floating-point numbers and their arithmetic are arguments, and so are the bounds of
-- geometries with their union and the test whether they meet, which are those of a library.
pub mod Grid
pub mod Query
pub mod Overlap
pub mod Laws
pub mod Tests
use geoverse_map_server.Base.{
  ℕ, zero, suc, ◌+◌, ◌-◌, ◌*◌, Bool, true, false, not, List, [], ◌∷◌, ◌++◌, map, length, get_or,
  get_elem?, set, take, drop, Option, none, some, if◌then◌else◌, ltb, leb, ◌==◌,
}
use geoverse_map_server.Base.Dict.{Dict, lookup, insert}
use geoverse_map_server.Base.Ints.{ℤ, pos, negsuc}
use geoverse_map_server.Base.Results.{Result, ok, error}
use geoverse_map_server.Base.Text.{Text, str, text_eq}
use geoverse_map_server.Graph.{Value}

abbrev pub grid_dim : ℕ
grid_dim = 64

-- `orb.Bound`: the least and the greatest coordinates, the horizontal in front.
pub record Box (Float : Type 0) : Type 0 where
  pub min_point : Float × Float
  pub max_point : Float × Float

-- What the engine uses of floating-point numbers and of the library of geometries: the numbers 0 and
-- 64, the comparison, the arithmetic, the conversion to `int`, and the bounds with their tests.
pub record Plane : Type 1 where
  pub Coord : Type 0
  pub nought : Coord
  pub dim : Coord
  pub lt : Coord → Coord → Bool
  pub sub : Coord → Coord → Coord
  pub div : Coord → Coord → Coord
  pub mul : Coord → Coord → Coord
  pub to_int : Coord → ℤ
  pub Shape : Type 0
  pub bound : Shape → Box Coord
  pub union : Box Coord → Box Coord → Box Coord
  pub intersects : Box Coord → Box Coord → Bool

-- `clampi`
abbrev pub clampi : ℤ → ℕ → ℕ → ℕ
clampi (negsuc v) lo hi = lo
clampi (pos v) lo hi = if ltb v lo then lo else if ltb hi v then hi else v

-- `jsonType`
abbrev pub json_type : {Float : Type 0} → Value Float → Text
json_type (Value.float64 x) = str "Number"
json_type (Value.float32 x) = str "Number"
json_type (Value.int i) = str "Number"
json_type (Value.int64 i) = str "Number"
json_type (Value.uint64 n) = str "Number"
json_type (Value.bool b) = str "Boolean"
json_type (Value.string t) = str "String"
json_type Value.other = str "String"

-- The numbers from `lo` on, so many of them.
abbrev pub count_up : ℕ → ℕ → List ℕ
count_up lo zero = []
count_up lo (suc n) = lo ∷ count_up (suc lo) n

-- The cells of a loop from `x0` to `x1`, in the row `y`, and of the two loops.
unfoldable pub row_cells : ℕ → ℕ → ℕ → List ℕ
row_cells x0 x1 y = map (λ x. y * grid_dim + x) (count_up x0 (suc x1 - x0))

unfoldable pub rows_cells : ℕ → ℕ → List ℕ → List ℕ
rows_cells x0 x1 [] = []
rows_cells x0 x1 (y ∷ ys) = row_cells x0 x1 y ++ rows_cells x0 x1 ys

-- The inner loop of `buildGrid`: the feature numbered `i` is put in its cells.
unfoldable pub put_cells : ℕ → List ℕ → List (List ℕ) → List (List ℕ)
put_cells i [] grid = grid
put_cells i (c ∷ cs) grid = put_cells i cs (set grid c (get_or grid c [] ++ i ∷ []))

-- `seen[i]`
abbrev pub is_seen : ℕ → List ℕ → Bool
is_seen i [] = false
is_seen i (j ∷ js) = if i == j then true else is_seen i js

abbrev pub blank_cells : ℕ → List (List ℕ)
blank_cells zero = []
blank_cells (suc n) = [] ∷ blank_cells n

-- The loop over the properties of a feature.
unfoldable pub add_fields :
    {Float : Type 0} → List (Text × Value Float) → Dict Text Text → Dict Text Text
add_fields [] fields = fields
add_fields ((k, v) ∷ rest) fields = add_fields rest (elim (lookup text_eq k fields) [
  | none ↦ insert text_eq k (json_type v) fields
  | some t ↦ fields
])

-- The loop over the features of a cell: those seen, and those found.
unfoldable pub look : (ℕ → Bool) → List ℕ → List ℕ × List ℕ → List ℕ × List ℕ
look hits [] st = st
look hits (i ∷ is) st =
    look hits is
      (if is_seen i st.0 then st else (i ∷ st.0, if hits i then st.1 ++ i ∷ [] else st.1))

-- The loops over the cells.
unfoldable pub look_cells : (ℕ → Bool) → List (List ℕ) → List ℕ → List ℕ × List ℕ → List ℕ × List ℕ
look_cells hits grid [] st = st
look_cells hits grid (c ∷ cs) st = look_cells hits grid cs (look hits (get_or grid c []) st)

-- The cuts of `Features` at the offset and at the limit.
unfoldable pub skip_to : ℤ → List ℕ → List ℕ
skip_to (negsuc n) idx = idx
skip_to (pos n) idx = if ltb 0 n then if leb (length idx) n then [] else drop n idx else idx

unfoldable pub cap : ℤ → List ℕ → List ℕ
cap (negsuc n) idx = idx
cap (pos n) idx = if ltb 0 n then if ltb n (length idx) then take n idx else idx else idx

module _ (p : Plane) where
  open p use {Coord, nought, dim, lt, sub, div, mul, to_int, Shape, bound, union, intersects}

  abbrev pub Bound : Type 0
  Bound = Box Coord

  -- `geojson.Feature`, with its id as it is printed.
  pub record Feature (Float : Type 0) : Type 0 where
    pub id : Option Text
    pub geometry : Option Shape
    pub properties : List (Text × Value Float)

  -- A coordinate in the cells of the range from `lo` to `hi`, before it is a number of a cell.
  abbrev pub scaled : Coord → Coord → Coord → Coord
  scaled lo hi v = mul (div (sub v lo) (sub hi lo)) dim

  -- One coordinate of `cellOf`.
  unfoldable pub cell_on : Coord → Coord → Coord → ℕ
  cell_on lo hi v =
      clampi (if lt nought (sub hi lo) then to_int (scaled lo hi v) else pos 0) 0 (grid_dim - 1)

  -- `cellOf`
  unfoldable pub cell_of : Bound → Coord × Coord → ℕ × ℕ
  cell_of extent v = (
    cell_on extent.min_point.0 extent.max_point.0 v.0,
    cell_on extent.min_point.1 extent.max_point.1 v.1,
  )

  -- The cells between the two corners of a bound.
  unfoldable pub cells_of : Bound → Bound → List ℕ
  cells_of extent b =
      let low = cell_of extent b.min_point in
      let high = cell_of extent b.max_point in
      rows_cells low.0 high.0 (count_up low.1 (suc high.1 - low.1))

  -- `buildGrid`, from the feature numbered `i` on.
  unfoldable pub build_grid : Bound → ℕ → List Bound → List (List ℕ) → List (List ℕ)
  build_grid extent i [] grid = grid
  build_grid extent i (b ∷ bs) grid =
      build_grid extent (suc i) bs (put_cells i (cells_of extent b) grid)

  -- The test of a feature's bound.
  abbrev pub touches : List Bound → Bound → ℕ → Bool
  touches bounds b i = elim (get_elem? bounds i) [ none ↦ false | some x ↦ intersects x b ]

  -- `Engine`, less the options that describe it.
  pub record Engine (Float : Type 0) : Type 0 where
    pub name : Text
    pub features : List (Feature Float)
    pub bounds : List Bound
    pub ids : List Text
    pub by_id : Dict Text ℕ
    pub extent : Option Bound
    pub fields : Dict Text Text
    pub grid : List (List ℕ)

  -- `source.FeatureQuery`. A limit of 0 is none.
  pub record FeatureQuery : Type 0 where
    pub bbox : Option Bound
    pub limit : ℤ
    pub offset : ℤ

  module _ {Float : Type 0} where
    -- The loop's body of `New`, for a feature with a geometry. `print` prints a number.
    unfoldable pub add_feature : (ℕ → Text) → Feature Float → Shape → Engine Float → Engine Float
    add_feature print f shape e =
        let i = length e.features in
        let id : Text = elim f.id [ none ↦ print i | some t ↦ t ] in
        record e {
          features = e.features ++ (record f { id = some id }) ∷ [];
          bounds = e.bounds ++ bound shape ∷ [];
          ids = e.ids ++ id ∷ [];
          by_id = elim (lookup text_eq id e.by_id) [
            | none ↦ insert text_eq id i e.by_id
            | some j ↦ e.by_id
          ];
          extent = elim e.extent [
            | none ↦ some (bound shape)
            | some x ↦ some (union x (bound shape))
          ];
          fields = add_fields f.properties e.fields;
        }

    -- The loop of `New`. A nil feature is `none`.
    unfoldable pub add_features :
        (ℕ → Text) → List (Option (Feature Float)) → Engine Float → Engine Float
    add_features print [] e = e
    add_features print (none ∷ fs) e = add_features print fs e
    add_features print (some f ∷ fs) e =
        add_features print fs
          (elim f.geometry [ none ↦ e | some shape ↦ add_feature print f shape e ])

    -- `New`. The error says that no feature is usable.
    unfoldable pub new_engine :
        (ℕ → Text) → Text → List (Option (Feature Float)) → Result (Engine Float) Text
    new_engine print name feats =
        let e : Engine Float = add_features print feats (record {
          name = name;
          features = [];
          bounds = [];
          ids = [];
          by_id = [];
          extent = none;
          fields = [];
          grid = [];
        }) in
        elim e.extent [
          | none ↦ error name
          | some x ↦
              ok (record e { grid = build_grid x 0 e.bounds (blank_cells (grid_dim * grid_dim)) })
        ]

    -- `query`. `sort` is `sort.Ints`.
    unfoldable pub query : (List ℕ → List ℕ) → Engine Float → Bound → List ℕ
    query sort e b = elim e.extent [
      | none ↦ []
      | some x ↦
          if intersects b x
          then sort (look_cells (touches e.bounds b) e.grid (cells_of x b) ([], [])).1
          else []
    ]

    -- The loop that appends `e.features[i]`. A number out of range makes the code panic.
    unfoldable pub pick : List (Feature Float) → List ℕ → Option (List (Feature Float))
    pick fs [] = some []
    pick fs (i ∷ is) = elim (get_elem? fs i) [
      | none ↦ none
      | some f ↦ elim (pick fs is) [ none ↦ none | some rest ↦ some (f ∷ rest) ]
    ]

    -- `Features`: the page, and how many features match.
    unfoldable pub features_page :
        (List ℕ → List ℕ) → Engine Float → FeatureQuery → Option (List (Feature Float) × ℕ)
    features_page sort e q =
        let idx : List ℕ = elim q.bbox [
          | none ↦ count_up 0 (length e.features)
          | some b ↦ query sort e b
        ] in
        elim (pick e.features (cap q.limit (skip_to q.offset idx))) [
          | none ↦ none
          | some page ↦ some (page, length idx)
        ]

    -- `Feature`. No feature is `none`.
    unfoldable pub feature : Engine Float → Text → Option (Feature Float)
    feature e id = elim (lookup text_eq id e.by_id) [
      | none ↦ none
      | some i ↦ get_elem? e.features i
    ]
