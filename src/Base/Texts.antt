-- ===== src/Base/Texts.antt =====
-- Equality of texts.
use Prim.Native.String.{String}
use mathlib.Core.Path.{◌≡◌, sym}
use native.Mathlib.Omega.{arith}
use text.Mathlib.Text.{◌==◌ as str_eq}
use text.Mathlib.TextEquality.{eq_iff}

pub str_eq_comm : (s t : String) → str_eq s t ≡ str_eq t s
str_eq_comm s t = ground (arith, eq_iff s t, eq_iff t s, λ (e : s ≡ t). sym e, λ (e : t ≡ s). sym e)
