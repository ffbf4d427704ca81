-- ===== src/Lib.antt =====
-- A model of geoverse-map-server, a server of map tiles and features, and theorems about it.
--
-- The program serves tiles from the sources of a validated configuration (internal/config). A
-- registry holds the sources by name (internal/source/registry); an HTTP handler, behind layers that
-- check keys and recover from panics (internal/server), looks a tile up in a stack of two caches
-- (internal/cache) and asks the source on a miss; one kind of source reads tiles from an archive in
-- one file (internal/source/pmtiles). The management requests change the configuration, its file
-- and the registry together; algorithms run over the features of the sources (internal/algo).
--
-- What models which part:
--   Base      what the parts share: tests, lists, dictionaries, texts, results
--   Cache     Memory is internal/cache/cache.go, Disk is internal/cache/disk.go, Tiered is
--             internal/cache/tiered.go. Lru is the abstract cache, a list of entries.
--   Config    internal/config/config.go: Validate and Load; Save is SaveSources, Asset is assets.go,
--             Policy is datasource_policy.go
--   Registry  internal/source/registry/registry.go, over abstract backends
--   Pmtiles   internal/source/pmtiles/pmtiles.go: Hilbert is zxyToID, Varint and Directory are
--             decodeDirectory and findEntry, Archive is parseHeader, load, tileEntry and Tile
--   Network   internal/algo/network/manager.go, over an abstract builder of graphs
--   Engine    internal/source/memengine/memengine.go: the store of features with its grid, over an
--             abstract library of geometries and abstract floating-point numbers
--   Graph     internal/algo/network/graph.go: Build is how a graph is built from features, over an
--             abstract geometry
--   Search    internal/algo/network/search.go: Dijkstra's search over a graph, with the walks that it
--             compares, and Astar is AStar over an abstract heuristic; Costs are the costs that they add
--             and compare
--   Algo      internal/algo/algo.go; Run is internal/server/algorithms.go, where an error is the
--             chain of the errors that it wraps
--   Cluster   the labelling in internal/algo/cluster/dbscan.go, over abstract neighbours
--   Diagnostics  internal/diagnostics/diagnostics.go: the reports of the doctor and their exit code
--   Server    Tile and its tests are internal/tilemath/tilemath.go; the rest, with Serve, is the way
--             of a request for a tile through internal/server/tiles.go, tiles_ogc.go and wmts.go;
--             Features is features.go; Middleware is middleware.go and the end of Handler in
--             server.go; Admin is admin_sources.go, which changes the configuration and the registry
--             together; Readiness is the memo of admin.go and the health of meta.go
--
-- State is passed explicitly: an operation takes the state and gives the state after it and its
-- answer. A panic is `none`, but in Pmtiles the one for a buffer that is too large, which is the error
-- `buffer_panic`; an error is a value. The clock, the faults of the operating system, the
-- choices of libraries (sorting, temporary names, gzip, JSON) and the backends are arguments.
-- Machine words wrap as written (`% 2 ^ 64`); times are natural numbers of nanoseconds.
--
-- Loops: the loop of `Set` that evicts takes fuel, one round for each element, and the theorems on
-- `set` prove that this is enough; the binary search takes as many rounds as there are entries, and
-- its theorem proves this enough; the inner loop of the clustering has a round for each point and
-- each neighbour that a point can queue, and its theorem proves this enough; the searches for a path
-- have a turn for each start and each edge and one more, and their theorems prove this enough;
-- `PathTo` has as many turns as its theorem says; directories nest
-- at most four deep, as in the code. The other loops are structural recursion.
--
-- Not modelled: locks and goroutines (an operation is one step), floating-point fields, the text of
-- errors, the rest of HTTP, the SQL sources, and the geometry of tiles, features, clusters and
-- networks, which is floating-point.
pub mod Base
pub mod Cache
pub mod Config
pub mod Registry
pub mod Pmtiles
pub mod Network
pub mod Engine
pub mod Costs
pub mod Graph
pub mod Search
pub mod Algo
pub mod Cluster
pub mod Diagnostics
pub mod Server
