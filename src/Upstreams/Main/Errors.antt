-- ===== src/Upstreams/Main/Errors.antt =====
-- What `main` can raise behind `resolve`.
use landscape_openwrt.Base.Dict.{Dict}
use landscape_openwrt.Json.{Json}
use landscape_openwrt.Platform.{Platform}
