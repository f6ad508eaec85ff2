-- ===== src/Engine/DataModel/Cache.antt =====
-- data_model.rs: which data goes into the cache, and what comes back out of it.
use serpentine.Prelude.{◌≡◌, refl, true, false, Option, none, some}
use serpentine.Engine.DataModel.{
  Data, CacheableData, type_, cacheable, from_cacheable, is_cacheable,
}

module _ {P : Type 0} where
  -- What the cache makes of a value.
  abbrev pub CachedAs : Data P → Option CacheableData → Type 0
  CachedAs d none = is_cacheable (type_ d) ≡ false
  CachedAs d (some c) = (is_cacheable (type_ d) ≡ true) × (from_cacheable c ≡ d)

  -- A value has a cacheable form exactly if its type is cacheable, and reading the cacheable form
  -- back gives the value itself.
  pub cacheable-CachedAs : (d : Data P) → CachedAs d (cacheable d)
  unfolding cacheable from_cacheable is_cacheable type_
  cacheable-CachedAs (Data.int n) = (refl, refl)
  cacheable-CachedAs (Data.string s) = (refl, refl)
  cacheable-CachedAs (Data.container c) = (refl, refl)
  cacheable-CachedAs (Data.service s) = (refl, refl)
  cacheable-CachedAs (Data.file_system fs) = refl
