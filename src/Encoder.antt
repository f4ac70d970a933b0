-- ===== src/Encoder.antt =====
-- utils/wvencoder.cc: what every encoder inherits from `WvEncoder`. The virtual methods of a
-- subclass are a record of functions on its own state. A call takes what `inbuf` holds and says
-- what it left there and what it appended to `outbuf`, a WvDynBuf, which never fills up.
pub mod Loop
pub mod Contract
use wvstreams.Prelude.{Bool, true, false, not, ◌&&◌, ◌||◌, [], ◌∷◌, ◌++◌, Bytes, if◌then◌else◌}

-- what `_encode` or `_finish` did: `errored` and `ended` record calls of seterror and setfinished
pub record Outcome (S : Type 0) : Type 0 where
  pub state : S
  pub rest : Bytes
  pub out : Bytes
  pub success : Bool
  pub errored : Bool
  pub ended : Bool

pub record Methods (S : Type 0) : Type 0 where
  pub do_encode : S → Bytes → Bool → Outcome S
  pub do_finish : S → Outcome S
  pub do_reset : S → S × Bool

pub record WvEncoder (S : Type 0) : Type 0 where
  pub okay : Bool
  pub finished : Bool
  pub own : S

pub record Reply (S : Type 0) : Type 0 where
  pub enc : WvEncoder S
  pub rest : Bytes
  pub out : Bytes
  pub success : Bool

abbrev pub is_empty : Bytes → Bool
is_empty [] = true
is_empty (_ ∷ _) = false

module _ {S : Type 0} where
  abbrev pub fresh : S → WvEncoder S
  fresh s = record { okay = true; finished = false; own = s }

  -- the flags after the calls of seterror and setfinished
  abbrev pub settle : WvEncoder S → Outcome S → WvEncoder S
  settle e o = record {
    okay = e.okay && not o.errored;
    finished = e.finished || o.ended;
    own = o.state;
  }

module _ {S : Type 0} (m : Methods S) where
  unfoldable pub finish : WvEncoder S → Reply S
  finish e =
      let o = m.do_finish e.own in
      if e.okay && not e.finished
      then record {
        enc = record (settle e o) { finished = true };
        rest = [];
        out = o.out;
        success = o.success;
      }
      else record { enc = record e { finished = true }; rest = []; out = []; success = false }

  -- `encode` up to the call of `finish`
  unfoldable pub encode_only : WvEncoder S → Bytes → Bool → Reply S
  encode_only e input flush =
      let o = m.do_encode e.own input flush in
      if e.okay && not e.finished && (not (is_empty input) || flush)
      then record { enc = settle e o; rest = o.rest; out = o.out; success = o.success }
      else record { enc = e; rest = input; out = []; success = false }

  unfoldable pub encode : WvEncoder S → Bytes → Bool → Bool → Reply S
  unfolding encode_only finish
  encode e input flush do_finish =
      let r = encode_only e input flush in
      let f = finish r.enc in
      if do_finish
      then record {
        enc = f.enc;
        rest = r.rest;
        out = r.out ++ f.out;
        success = f.success && r.success;
      }
      else r

  -- an encoder whose `_reset` fails calls seterror here
  unfoldable pub reset : WvEncoder S → WvEncoder S × Bool
  reset e =
      let (s, success) = m.do_reset e.own in
      (record { okay = success; finished = false; own = s }, success)

  -- flushstrstr, strflushstr, flushmembuf and flushbufstr: encode everything with flush
  unfoldable pub flush_str : WvEncoder S → Bytes → Bool → Reply S
  unfolding encode
  flush_str e input do_finish = encode e input true do_finish
