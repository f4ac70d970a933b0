-- ===== src/Encoder/Contract.antt =====
-- What `WvEncoder` promises of every encoder, whatever its virtual methods do.
use wvstreams.Prelude.{Bool, true, false, [], Bytes, ◌≡◌, ◌⊎◌, arith}
use wvstreams.Encoder.{Methods, WvEncoder, finish, encode}

module _ {S : Type 0} (m : Methods S) (e : WvEncoder S) where
  -- However the encoder finishes, it is finished after `finish`, and a second `finish` fails, writes
  -- nothing and changes nothing.
  pub finish_once :
      ((finish m e).enc.finished ≡ true)
      × (finish m (finish m e).enc
          ≡ record { enc = (finish m e).enc; rest = []; out = []; success = false })
  unfolding finish
  finish_once = (ground arith, ground arith)

  -- An encoder that is broken or finished refuses every `encode`: it fails, leaves the whole input in
  -- its buffer and writes nothing.
  pub encode_refuses :
      (input : Bytes) (flush do_finish : Bool)
      → (e.okay ≡ false) ⊎ (e.finished ≡ true)
      → ((encode m e input flush do_finish).success ≡ false)
        × ((encode m e input flush do_finish).rest ≡ input)
        × ((encode m e input flush do_finish).out ≡ [])
  unfolding encode
  encode_refuses input flush do_finish h = ground arith
