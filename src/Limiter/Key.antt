-- ===== src/Limiter/Key.antt =====
-- Two different requests that share their counter.
use Prim.Native.String.{◌++◌}
use text.Mathlib.TextLemmas.{append_assoc}
use suffren.Base.{◌≡◌, String}
use suffren.Limiter.{Rule, build_key}
use suffren.Limiter.Environment.{Platform}

-- The colon that separates identifier and resource may stand in either of them: the identifier
-- `a:b` with the resource `c` has the key of the identifier `a` with the resource `b:c`.
pub build_key-collides :
    (go : Platform) (a b c : String) (rule : Rule go.Duration) (start : go.Time)
    → build_key go (a ++ (":" ++ b)) c rule start ≡ build_key go a (b ++ (":" ++ c)) rule start
unfolding build_key
build_key-collides go a b c rule start = rw (append_assoc, append_assoc, append_assoc, append_assoc)
