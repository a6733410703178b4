-- ===== src/Errors/Ignore.antt =====
-- The tests of broker/errors/errors.go under wrapping, and what the ignoring functions drop.
use poollet.Base.{◌≡◌, Bool, false, some, arith}
use poollet.Errors.{Error, is_not_synced, is_not_found, wrap}

-- No error is at once not synced and not found, so the two tests tell the two cases apart.
pub not_synced-excludes-not_found :
    (e : Error) → is_not_synced (some e) ≡ Bool.true → is_not_found (some e) ≡ false
unfolding is_not_synced is_not_found
not_synced-excludes-not_found (wrap text e) h = not_synced-excludes-not_found e h
not_synced-excludes-not_found _ h = ground arith
