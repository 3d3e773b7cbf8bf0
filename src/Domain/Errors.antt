-- ===== src/Domain/Errors.antt =====
-- internal/domain/errors.go, with the part of the standard packages `errors` and `fmt` that builds
-- and inspects error chains.
use Prim.Native.String.{◌++◌}
use spec_star_go.Prelude.{ℕ, Bool, false, ◌||◌, String, ◌==◌}

-- the sentinel values that `errors.New` makes
pub data Sentinel : Type 0 where
  not_found concurrency_conflict duplicate insufficient_position : Sentinel

-- Sentinels are compared by identity.
abbrev index : Sentinel → ℕ
index not_found = 0
index concurrency_conflict = 1
index duplicate = 2
index insufficient_position = 3

abbrev pub same : Sentinel → Sentinel → Bool
same a b = index a == index b

-- `message` is an error that wraps nothing, `wrap` is `fmt.Errorf("…: %w", err)`, and `join` is
-- `errors.Join` of two errors.
pub data Error : Type 0 where
  sentinel : Sentinel → Error
  validation_error : String → Error
  message : String → Error
  wrap : String → Error → Error
  join : Error → Error → Error

abbrev pub sentinel_text : Sentinel → String
sentinel_text not_found = "not found"
sentinel_text concurrency_conflict = "concurrency conflict"
sentinel_text duplicate = "duplicate"
sentinel_text insufficient_position = "insufficient position"

-- `err.Error()`
unfoldable pub error_text : Error → String
error_text (sentinel s) = sentinel_text s
error_text (validation_error m) = m
error_text (message m) = m
error_text (wrap prefix e) = prefix ++ ": " ++ error_text e
error_text (join a b) = error_text a ++ "\n" ++ error_text b

-- `errors.Is(err, target)`
abbrev pub is : Error → Sentinel → Bool
is (sentinel s) t = same s t
is (validation_error m) t = false
is (message m) t = false
is (wrap prefix e) t = is e t
is (join a b) t = is a t || is b t
