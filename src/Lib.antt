-- ===== src/Lib.antt =====
-- A model of the core of WvStreams, a C++ library for network programs, and proofs about it.
--
-- The library is a tree of directories: utils/ holds texts, buffers and the encoders; uniconf/ the
-- configuration system, in which generators hold keys with values and notify their clients of
-- changes; streams/, ipstreams/, linuxstreams/, crypto/, dbus/ and urlget/ the streams. Modelled are
-- the encoders, the stores behind the buffers, the Tcl-style lists, and the keys and the in-memory generator of UniConf.
--
-- An encoder is a class derived from WvEncoder, whose public methods keep the flags and call the
-- virtual _encode, _finish and _reset of the class; here these are a record of functions (Methods).
-- The texts that UniConf stores go through the Tcl quoting. A generator holds its values in a tree
-- whose nodes are found by a key, and puts each change in the queue of notifications of its base
-- class, which passes them on to the clients.
--
-- Files, each with the source that it models:
--   Prelude        names of the libraries, lists and tests on native numbers, integers
--   Ctype          the character classes of <ctype.h> that the sources call
--   Encoder        utils/wvencoder.cc, include/wvencoder.h: WvEncoder's encode, finish, reset, flush
--                  helpers (Encoder/Loop: the loop over single characters that several classes have)
--   Hex            utils/wvhex.cc: WvHexEncoder, WvHexDecoder
--   Base64         utils/wvbase64.cc: WvBase64Encoder, WvBase64Decoder
--   Backslash      utils/wvbackslash.cc: WvBackslashEncoder, WvBackslashDecoder
--   WordWrap       utils/wvwordwrap.cc: WvWordWrapEncoder
--   BufferStore    utils/wvbufferstore.cc, include/wvbufstore.h: what WvBufStore does over its virtual methods
--                  (Base), WvInPlaceBufStore (InPlace), WvCircularBufStore (Circular), WvLinkedBufferStore
--                  (Linked), WvDynBufStore (Dynamic), MemOps (Memory)
--   CString        utils/wvstrutils.cc: cstr_escape, cstr_unescape
--   FileName       utils/wvstrutils.cc: getfilename, getdirname
--   Spacing        utils/wvstrutils.cc: spacecat, undupe
--   Search         utils/wvstrutils.cc: strreplace, beforestr, afterstr
--   UrlCode        utils/wvstrutils.cc: url_encode, url_decode, trim_string
--   StringMask     utils/wvstringmask.cc: WvStringMask
--   TclString      utils/wvtclstring.cc: wvtcl_escape, wvtcl_unescape, wvtcl_getword, wvtcl_encode,
--                  wvtcl_decode
--   UniConf/Key    uniconf/uniconfkey.cc, include/uniconfkey.h: UniConfKey
--   UniConf/Slice  the vector behind a UniConfKey, with append, prepend and pop
--   UniConf/Gen    uniconf/uniconfgen.cc: UniConfGen's notifications
--   UniConf/Tree   uniconf/unihashtree.cc, include/uniconftree.h: UniConfValueTree
--   UniConf/TempGen  uniconf/unitempgen.cc: UniTempGen
--   Tests          runs at concrete inputs, and the theorems at concrete inputs
-- The children of a module hold its proofs.
--
-- State is passed explicitly: a method takes the record of its object's fields and returns the new
-- one. A character is the number of its byte. A buffer is the list of the bytes that it holds; an
-- output buffer is a WvDynBuf, which has room for everything, but in the backslash encoder: its output buffer
-- is over one array, with the room it is given and with the bytes that its reader has taken, which `unget` brings
-- back, and its input comes in chunks. A failed assertion and a write outside an array are `none`. Numbers that the source
-- keeps in an `int` and that stay small (widths, counts, depths) are natural numbers; the unsigned
-- bits of the Base64 classes wrap at 2 ^ 32 as in the source, and `char` is signed.
--
-- The stores of BufferStore meet in a contract (Base/Laws): what the store promises of its virtual methods,
-- as a queue of bytes. WvBufStore's own methods are proved over any store that keeps it, and the circular
-- store and the store in one array keep it. A pointer into an array is an index there, sizes are far from the
-- largest `size_t`, and the granularity is that of bytes.
--
-- Recursion is on the structure of the input, or on fuel. The loop of wvtcl_decode gets one more than the
-- length of its text, which is enough as each word takes at least one character off it (a theorem below says
-- that it ends); the recursion of UniConfKey::matches gets the number of segments of its pattern, which every
-- call makes shorter, and the loop of matches over the suffixes of a key one round more than the key has
-- segments. WvBufStore::put, basicmerge and the exchange of blocks in WvCircularBufStore::compact get one round
-- for each byte that is to be moved, and each round moves one or more (the theorems below say that they
-- return); the loops of cstr_unescape and url_decode get one for each character of their text, and
-- getfilename and getdirname, which call themselves on a shorter text, likewise. The
-- loop of strreplace gets one round more than its text has characters, and each round takes at least one off,
-- unless the text to be replaced is empty.
--
-- Assumed of what is not modelled: callbacks call nothing of the generator that calls them, the string
-- cache gives back an equal text, and the order in which a hash table is walked is that of the list
-- that stands for it. Not modelled are texts of errors, hash values, reference counts and memory, the
-- streams and everything that calls the operating system, and the directories named in no line above.
pub mod Backslash
pub mod Base64
pub mod BufferStore
pub mod CString
pub mod Ctype
pub mod Encoder
pub mod FileName
pub mod Hex
pub mod Prelude
pub mod Search
pub mod Spacing
pub mod StringMask
pub mod TclString
pub mod Tests
pub mod UniConf
pub mod UrlCode
pub mod WordWrap
