-- ===== src/Gateway.antt =====
-- The gateway that stands between New API and a model provider: internal/platform/gateway.go.
-- `Types` has its records, `Text` the helpers on header values, `Serve` the handling of one request, `Stream` the relay of
-- an event stream, `RouteCache` the cache of routes, `Upstream` the request to the provider and the relay of a
-- body, `Usage` the token counts of a response, and `Lines` the reading of an event stream.
pub mod Types
pub mod Text
pub mod Serve
pub mod Stream
pub mod RouteCache
pub mod Upstream
pub mod Usage
pub mod Lines
