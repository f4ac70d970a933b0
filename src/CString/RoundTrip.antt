-- ===== src/CString/RoundTrip.antt =====
-- cstr_unescape reads what cstr_escape wrote.
use wvstreams.Prelude.{
  ◌>>=◌, ℕ, zero, suc, ◌+◌, ◌≤◌, ◌<◌, true, false, some, List, [], ◌∷◌, ◌++◌, append_assoc,
  append-nil, Bytes, IsByte, All, length, length-append, take, leb, le→leb, ◌==◌, ◌≡◌, ◌≢◌, refl,
  subst, ap, ◌∙◌, arith,
}
use wvstreams.Ctype.{isspace}
use wvstreams.CString.{
  ExtraEscape, tclstr_escapes, escape_char, escape_loop, cstr_escape, unescape_char, quoted,
  skip_space, opened, constants, Unescaped, cstr_unescape,
}
use wvstreams.CString.Escapes.{Reads, no_extras-Reads, tclstr-Reads}

module _ (extras : List ExtraEscape) (reads : Reads extras) where
  open reads use {read_back, opens}

  quoted_step :
      (rounds first : ℕ) (others rest : Bytes) (c : ℕ)
      → first ≢ 34
      → unescape_char extras (first ∷ (others ++ rest)) ≡ some (c, rest)
      → quoted extras (suc rounds) (first ∷ (others ++ rest))
        ≡ (quoted extras rounds rest >>= λ s. some (c ∷ s.0, s.1))
  unfolding quoted
  quoted_step rounds first others rest c h e =
      let no_quote : (first == 34) ≡ false = ground (arith, h) in rw (no_quote, quoted) (rw e refl)

  one_more :
      (rounds c : ℕ) (rest bytes after : Bytes)
      → c < 256
      → quoted extras rounds rest ≡ some (bytes, after)
      → quoted extras (suc rounds) (escape_char extras c ++ rest) ≡ some (c ∷ bytes, after)
  one_more rounds c rest bytes after h e =
      let (first, others, stands, no_quote) = opens c in
      let read : unescape_char extras (first ∷ (others ++ rest)) ≡ some (c, rest) =
        subst (λ esc. unescape_char extras (esc ++ rest) ≡ some (c, rest)) stands
          (read_back c rest h) in
      rw stands (quoted_step rounds first others rest c no_quote read ∙ rw e refl)

  quote_ends :
      (rounds : ℕ) (after : Bytes) → quoted extras (suc rounds) (34 ∷ after) ≡ some ([], after)
  unfolding quoted
  quote_ends rounds after = refl

  -- The characters up to the quote are read back, with rounds for each of them and the quote.
  quoted-escape_loop :
      (rounds : ℕ) (cdata after : Bytes)
      → All IsByte cdata
      → length cdata < rounds
      → quoted extras rounds (escape_loop extras cdata ++ (34 ∷ after)) ≡ some (cdata, after)
  unfolding escape_loop
  quoted-escape_loop zero cdata after b h = absurd (omega (arith, h))
  quoted-escape_loop (suc rounds) [] after b h = quote_ends rounds after
  quoted-escape_loop (suc rounds) (c ∷ cdata) after b h =
      rw (append_assoc (escape_char extras c) (escape_loop extras cdata) (34 ∷ after)) (
        one_more rounds c (escape_loop extras cdata ++ (34 ∷ after)) cdata after (b.0)
          (quoted-escape_loop rounds cdata after (b.1) (omega (arith, h))))

  length-escape_loop : (cdata : Bytes) → length cdata ≤ length (escape_loop extras cdata)
  unfolding escape_loop
  length-escape_loop [] = omega arith
  length-escape_loop (c ∷ cdata) =
      let (first, others, stands, no_quote) = opens c in
      omega (
        arith,
        length-escape_loop cdata,
        length-append {0} (escape_char extras c) (escape_loop extras cdata),
        ap length stands,
      )

  constants_end : (rounds : ℕ) → constants extras (suc rounds) [] ≡ some []
  unfolding constants skip_space
  constants_end rounds = refl

  one_constant :
      (rounds : ℕ) (inside bytes : Bytes)
      → quoted extras (length inside + 1) inside ≡ some (bytes, [])
      → constants extras (suc (suc rounds)) (34 ∷ inside) ≡ some bytes
  unfolding constants skip_space isspace opened
  one_constant rounds inside bytes h =
      let nonempty : (length (34 ∷ inside) == 0) ≡ false = ground arith in
      rw (nonempty, constants) (rw h (ap some (append-nil bytes)))

  constants-cstr_escape :
      (rounds : ℕ) (cdata : Bytes)
      → All IsByte cdata
      → constants extras (suc (suc rounds)) (cstr_escape extras cdata) ≡ some cdata
  unfolding cstr_escape
  constants-cstr_escape rounds cdata b =
      let inside : Bytes = escape_loop extras cdata ++ (34 ∷ []) in
      one_constant rounds inside cdata (
        quoted-escape_loop (length inside + 1) cdata [] b (
          omega (
            arith,
            length-escape_loop cdata,
            length-append {0} (escape_loop extras cdata) (34 ∷ []),
          )))

  unescape-constants :
      (cstr bytes : Bytes) (max_size : ℕ)
      → constants extras (length cstr + 1) cstr ≡ some bytes
      → cstr_unescape extras cstr max_size ≡ record {
        success = leb (length bytes) max_size;
        size = length bytes;
        written = take max_size bytes;
      }
  unfolding cstr_unescape
  unescape-constants cstr bytes max_size h = rw (h, cstr_unescape) refl

  rounds_enough : (cdata : Bytes) → (n : ℕ) × (length (cstr_escape extras cdata) + 1 ≡ suc (suc n))
  unfolding cstr_escape
  rounds_enough cdata = (length (escape_loop extras cdata ++ (34 ∷ [])), omega arith)

  pub unescape-escape_bytes :
      (cdata : Bytes) (max_size : ℕ)
      → All IsByte cdata
      → cstr_unescape extras (cstr_escape extras cdata) max_size ≡ record {
        success = leb (length cdata) max_size;
        size = length cdata;
        written = take max_size cdata;
      }
  unescape-escape_bytes cdata max_size b =
      let (n, enough) = rounds_enough cdata in
      unescape-constants (cstr_escape extras cdata) cdata max_size (
        ap (λ k. constants extras k (cstr_escape extras cdata)) enough
        ∙ constants-cstr_escape n cdata b)

take_all : (n : ℕ) (v : Bytes) → length v ≤ n → take n v ≡ v
take_all zero [] h = refl
take_all zero (x ∷ v) h = absurd (omega (arith, h))
take_all (suc n) [] h = refl
take_all (suc n) (x ∷ v) h = ap (◌∷◌ x) (take_all n v (omega (arith, h)))

-- with no table and with that of the Tcl strings
pub cstr_unescape-cstr_escape :
    (cdata : Bytes) (max_size : ℕ)
    → All IsByte cdata
    → length cdata ≤ max_size
    → (cstr_unescape [] (cstr_escape [] cdata) max_size
        ≡ record { success = true; size = length cdata; written = cdata })
      × (cstr_unescape tclstr_escapes (cstr_escape tclstr_escapes cdata) max_size
          ≡ record { success = true; size = length cdata; written = cdata })
cstr_unescape-cstr_escape cdata max_size b h =
    let fits : leb (length cdata) max_size ≡ true = le→leb (length cdata) max_size h in
    let whole : take max_size cdata ≡ cdata = take_all max_size cdata h in
    let answer : Path Unescaped
        (record {
          success = leb (length cdata) max_size;
          size = length cdata;
          written = take max_size cdata;
        })
        (record { success = true; size = length cdata; written = cdata }) =
      rw (fits, whole) refl in
    (
      unescape-escape_bytes [] no_extras-Reads cdata max_size b ∙ answer,
      unescape-escape_bytes tclstr_escapes tclstr-Reads cdata max_size b ∙ answer,
    )

-- An array that is too small gets the first bytes, and the call fails.
cstr_unescape_short :
    (cdata : Bytes) (max_size : ℕ)
    → All IsByte cdata
    → max_size < length cdata
    → cstr_unescape [] (cstr_escape [] cdata) max_size
      ≡ record { success = false; size = length cdata; written = take max_size cdata }
cstr_unescape_short cdata max_size b h =
    let short : leb (length cdata) max_size ≡ false = ground (arith, h) in
    unescape-escape_bytes [] no_extras-Reads cdata max_size b ∙ rw short refl
