-- ===== src/Tests/Texts.antt =====
-- utils/wvwordwrap.cc and utils/wvbackslash.cc at concrete inputs.
use wvstreams.CString.{tclstr_escapes, cstr_escape, cstr_unescape}
use wvstreams.CString.RoundTrip.{cstr_unescape-cstr_escape}
use wvstreams.FileName.{last_slash, filename_loop, getfilename, dirname_loop, getdirname}
use wvstreams.FileName.Split.{path_parts}
use wvstreams.Search.{behind, strstr, replace_loop, strreplace, afterstr, beforestr}
use wvstreams.Spacing.{eat_back, eat_front, spacecat, undupe_loop, undupe}
use wvstreams.Spacing.Separators.{spacecat_lem}
use wvstreams.UrlCode.{url_encode, url_decode}
use wvstreams.UrlCode.RoundTrip.{url_decode-url_encode}
use wvstreams.Prelude.{
  ◌>>=◌, ℕ, true, false, none, some, List, [], ◌∷◌, ◌++◌, Bytes, codes, ◌≡◌, refl, arith,
}
use wvstreams.Ctype.{isdigit, isprint, tohex}
use wvstreams.WordWrap
use wvstreams.WordWrap.{WvWordWrapEncoder}
use wvstreams.WordWrap.Column.{column, letters}
use wvstreams.WordWrap.Width.{encode_fits}
use wvstreams.Backslash
use wvstreams.Backslash.{new_decoder, strchr, OutBuf}
use wvstreams.Backslash.Room.{sequences, flatten}
use wvstreams.Backslash.RoundTrip.{AreQuotable, ready, decode-encode_backslash}

wrap_program : Unit {0}
unfolding WordWrap.store WordWrap.flushline WordWrap.newline WordWrap.blank WordWrap.break_line
    WordWrap.break_full WordWrap.put_letter WordWrap.letter WordWrap.encode_char
    WordWrap.encode_loop WordWrap.encode
wrap_program = tt

wrapped_words :
    (WordWrap.encode (codes "one three fourfivesix") true (WordWrap.new_encoder 6) >>= λ w.
    some w.out)
    ≡ some (codes "one\nthree\nfourfi\nvesix")
unfolding wrap_program
wrapped_words = refl

-- with no room for one character the first write is behind the array
zero_width : WordWrap.encode (codes "a") true (WordWrap.new_encoder 0) ≡ none
unfolding wrap_program
zero_width = refl

encode_fits_example :
    (w : WvWordWrapEncoder) × (WordWrap.encode
        (codes "one\tthree fourfivesix")
        true
        (WordWrap.new_encoder 10)
      ≡ some w)
    × ((c : ℕ) × (column 10 0 w.out ≡ some c))
    × (letters w.out ≡ letters (codes "one\tthree fourfivesix"))
encode_fits_example = encode_fits 10 (codes "one\tthree fourfivesix") (omega arith)

backslash_program : Unit {0}
unfolding Backslash.paired Backslash.fromhex Backslash.fromoctal Backslash.sequence
    Backslash.encode_chunk Backslash.unget Backslash.encode Backslash.flushtmpbuf Backslash.escaped
    Backslash.decode_char Backslash.decode_loop Backslash.decode isdigit isprint tohex sequences
backslash_program = tt

abbrev quotes : Bytes
quotes = codes "\"\\"

abbrev chunks : List Bytes
chunks = codes "a\"" ∷ (codes "\n" ++ 1 ∷ []) ∷ (200 ∷ []) ∷ []

-- an output buffer of which nothing was taken, and one of which three bytes were
abbrev fresh_buffer : OutBuf
fresh_buffer = record { taken = []; queue = [] }

abbrev read_buffer : OutBuf
read_buffer = record { taken = codes "xyz"; queue = [] }

written_text :
    (Backslash.encode quotes chunks 20 true fresh_buffer >>= λ e. some e.outbuf.queue)
    ≡ some (codes "a\\\"\\n\\x01\\xc8")
unfolding backslash_program
written_text = refl

-- no room for the byte 1: an assertion fails, or a byte is read a second time
short_text :
    (Backslash.encode quotes chunks 6 false fresh_buffer ≡ none)
    × (Backslash.encode quotes chunks 6 false read_buffer
        ≡ some (record {
          outbuf = record { taken = codes "xy"; queue = codes "za\\\"\\n" };
          inbuf = (200 ∷ []) ∷ [];
          ok = true;
        }))
unfolding backslash_program
short_text = (refl, refl)

octal_text :
    (Backslash.decode (codes "\\101\\7\\x4g\\x") true new_decoder).out
    ≡ codes "A7" ++ 4 ∷ codes "g\\x"
unfolding backslash_program
octal_text = refl

quotes-AreQuotable : AreQuotable quotes
quotes-AreQuotable = (refl, λ c h. ground arith)

decode-encode_backslash_example :
    (Backslash.encode quotes chunks 20 true fresh_buffer >>= λ e.
    some (Backslash.decode e.outbuf.queue true new_decoder))
    ≡ some (ready (flatten chunks))
decode-encode_backslash_example =
    decode-encode_backslash quotes [] chunks 20 true true quotes-AreQuotable
      (omega arith, (omega arith, (omega arith, (omega arith, (omega arith, tt))))) (omega arith)

-- the zero byte, a quote, a brace and a byte that is not ASCII
cstr_unescape-cstr_escape_example :
    (cstr_unescape [] (cstr_escape [] (0 ∷ 34 ∷ 123 ∷ 200 ∷ [])) 4
      ≡ record { success = true; size = 4; written = 0 ∷ 34 ∷ 123 ∷ 200 ∷ [] })
    × (cstr_unescape tclstr_escapes (cstr_escape tclstr_escapes (0 ∷ 34 ∷ 123 ∷ 200 ∷ [])) 4
        ≡ record { success = true; size = 4; written = 0 ∷ 34 ∷ 123 ∷ 200 ∷ [] })
cstr_unescape-cstr_escape_example =
    cstr_unescape-cstr_escape (0 ∷ 34 ∷ 123 ∷ 200 ∷ []) 4 (omega arith) (omega arith)

-- "a b+%é" in Latin-1
url_decode-url_encode_example :
    url_decode false (url_encode [] (97 ∷ 32 ∷ 98 ∷ 43 ∷ 37 ∷ 233 ∷ []))
    ≡ 97 ∷ 32 ∷ 98 ∷ 43 ∷ 37 ∷ 233 ∷ []
url_decode-url_encode_example =
    url_decode-url_encode false (97 ∷ 32 ∷ 98 ∷ 43 ∷ 37 ∷ 233 ∷ []) (omega arith)

-- the root has no name, and its directory is the empty text
root_parts : (getfilename (codes "/") ≡ []) × (getdirname (codes "//") ≡ [])
unfolding getfilename getdirname filename_loop last_slash dirname_loop
root_parts = (refl, refl)

path_parts_example :
    (getfilename (codes "/usr/lib//") ≡ codes "lib")
    × (getdirname (codes "/usr/lib//") ≡ codes "/usr")
path_parts_example = path_parts (codes "/usr") 108 (codes "ib") 2 (omega arith)

spacecat_lem_example :
    (spacecat (codes "xx;;") (codes ";yy") 59 true ≡ some (codes "xx;yy"))
    × (spacecat [] (codes ";yy") 59 true ≡ some (codes ";yy"))
    × (spacecat (codes ";;;") (codes ";yy") 59 true ≡ none)
spacecat_lem_example = spacecat_lem 59 120 1 2 (codes "x") (codes "yy") (omega arith) (omega arith)

-- without `onesep`, and the repetitions of one character
spaced_texts :
    (spacecat (codes "xx;;") (codes "yy") 59 false ≡ some (codes "xx;;;yy"))
    × (undupe (codes "a//b///c/") 47 ≡ codes "a/b/c/")
unfolding spacecat eat_back eat_front undupe undupe_loop
spaced_texts = (refl, refl)

replaced_texts :
    (strreplace (codes "a-b--c") (codes "--") (codes "+-") ≡ some (codes "a-b+-c"))
    × (beforestr (codes "key=a=b") (codes "=") ≡ some (codes "key"))
    × (afterstr (codes "key=a=b") (codes "=") ≡ some (codes "a=b"))
    × (afterstr (codes "key") (codes "=") ≡ some [])
unfolding behind strstr replace_loop strreplace afterstr beforestr
replaced_texts = (refl, refl, refl, refl)
