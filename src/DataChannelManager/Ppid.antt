-- ===== src/DataChannelManager/Ppid.antt =====
-- src/sctp/chunks.ts: the payload protocol identifiers that the manager uses.
use node_rtc_connection.Prelude.{ℕ}

abbrev pub dcep : ℕ
dcep = 50

abbrev pub string : ℕ
string = 51

abbrev pub binary_partial : ℕ
binary_partial = 52

abbrev pub binary : ℕ
binary = 53

abbrev pub string_empty : ℕ
string_empty = 56

abbrev pub binary_empty : ℕ
binary_empty = 57
