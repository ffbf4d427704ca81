-- ===== src/Config/Policy.antt =====
-- internal/config/datasource_policy.go: the tables that a database source may read. The comparison
-- of names without regard to case (`strings.EqualFold`) is an argument.
use geoverse_map_server.Base.{
  Bool, true, false, List, [], ◌∷◌, ◌++◌, not, ◌&&◌, ◌||◌, if◌then◌else◌,
}
use geoverse_map_server.Base.Results.{Result, ok, error}
use geoverse_map_server.Base.Strings.{is_empty}
use geoverse_map_server.Base.Text.{Text, str}

pub record DataSourcePolicy : Type 0 where
  pub allowed_schemas : List Text
  pub allowed_tables : List Text
  pub require_read_only_role : Bool

pub data PolicyError : Type 0 where
  schema_refused : Text → PolicyError
  table_refused : Text → PolicyError

-- `Configured`
unfoldable pub configured : DataSourcePolicy → Bool
configured p = not (is_empty p.allowed_schemas) || not (is_empty p.allowed_tables)

module _ (equal_fold : Text → Text → Bool) where
  unfoldable pub contains_fold : List Text → Text → Bool
  contains_fold [] want = false
  contains_fold (v ∷ vs) want =
      let rest = contains_fold vs want in if equal_fold v want then true else rest

  -- `CheckTable`
  unfoldable pub check_table : DataSourcePolicy → Text → Text → Result Unit PolicyError
  check_table p schema table =
      let qualified : Text = schema ++ str "." ++ table in
      if not (is_empty p.allowed_schemas) && not (contains_fold p.allowed_schemas schema)
      then error (schema_refused schema)
      else if not (is_empty p.allowed_tables) && not (contains_fold p.allowed_tables qualified)
      then error (table_refused qualified)
      else ok tt
