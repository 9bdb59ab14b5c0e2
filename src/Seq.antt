-- ===== src/Seq.antt =====
-- src/stream_seq.rs: a sequence number in one atomic u32. Its value is the whole state.
use libp2p_transport_veilid.Prelude.{ℕ, ◌+◌, u32}

abbrev pub StreamSeq : Type 0
StreamSeq = ℕ

unfoldable pub new : ℕ → StreamSeq
new initial_value = initial_value

unfoldable pub load : StreamSeq → ℕ
load value = value

-- `fetch_add` wraps, and so does `+ 1` on the old value in a release build (a debug build panics).
-- The new state, and the number returned.
unfoldable pub increment : StreamSeq → StreamSeq × ℕ
increment value = (u32 (value + 1), u32 (value + 1))

unfoldable pub update : StreamSeq → ℕ → StreamSeq
update value new_seq = new_seq
