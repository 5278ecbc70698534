-- ===== src/Loader/Ip.antt =====
-- src/config/loader.cpp: `LooksLikeIPv4Literal`. It walks the bytes of the text; here they are the
-- code points, and one that is no digit and no dot ends the walk either way.
use Prim.Native.Char.{code}
use kubeforward.Base.{
  ℕ, suc, ◌+◌, ◌-◌, ◌*◌, String, Bool, true, false, ◌&&◌, List, [], ◌∷◌, if◌then◌else◌, ltb, leb,
  eqb, not,
}

abbrev pub codes : String → List ℕ
codes String.[] = []
codes (String.◌∷◌ c s) = code c ∷ codes s

abbrev pub is_digit : ℕ → Bool
is_digit ch = leb b'0' ch && leb ch b'9'

-- The local variables of the loop.
pub record Scan : Type 0 where
  pub dots : ℕ
  pub segment_len : ℕ
  pub segments : ℕ
  pub current : ℕ
  pub has_digit : Bool

-- The loop and what follows it.
unfoldable pub scan : Scan → List ℕ → Bool
scan s [] = s.has_digit && (eqb s.dots 3 && eqb (suc s.segments) 4)
scan s (ch ∷ rest) =
    let current = s.current * 10 + (ch - b'0') in
    let digit =
      scan (record s { has_digit = true; current = current; segment_len = suc s.segment_len })
        rest in
    let dot =
      scan
        (record {
          dots = suc s.dots;
          segment_len = 0;
          segments = suc s.segments;
          current = 0;
          has_digit = false;
        })
        rest in
    if is_digit ch
    then if ltb 255 current then false else if ltb 3 (suc s.segment_len) then false else digit
    else if eqb ch b'.'
    then if not s.has_digit then false else if ltb 4 (suc s.segments) then false else dot
    else false

abbrev pub scan_start : Scan
scan_start = record { dots = 0; segment_len = 0; segments = 0; current = 0; has_digit = false }

unfoldable pub is_ip_literal : String → Bool
unfolding scan
is_ip_literal value = scan scan_start (codes value)
