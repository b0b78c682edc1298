-- ===== src/Sctp/Association/Acks.antt =====
-- What a SACK takes off the queue of sent chunks.
use node_rtc_connection.Prelude.{
  ℕ, suc, ◌≤◌, ◌-◌, none, if◌then◌else◌, ==_iff, ◌≡◌, refl, ◌∙◌, ◌≢◌, inl, inr, true, false, List,
  [], ◌∷◌, arith, ◌==◌, Bool-cases, ok,
}
use node_rtc_connection.Buffer.{Buffer}
use node_rtc_connection.Sctp.Association.{Assoc}
use node_rtc_connection.Map
use node_rtc_connection.Map.{nat_eq, get-delete_other}
use node_rtc_connection.Sctp.Chunks.{ParsedChunk}
use node_rtc_connection.Sctp.Bodies.{SackBody, parse_sack_body}
use node_rtc_connection.Sctp.Serial.{sn_lte, sn_lte_lem}
use node_rtc_connection.Sctp.Association.Sending.{ack_cumulative, ack_blocks, handle_sack}

ack_cumulative_other :
    (ack j : ℕ) (tsns : List ℕ) (queue : List (ℕ × Buffer))
    → j ≢ ack
    → Map.get j (ack_cumulative ack tsns queue) ≡ Map.get j queue
unfolding ack_cumulative
ack_cumulative_other ack j [] queue h = refl
ack_cumulative_other ack j (tsn ∷ tsns) queue h = elim (Bool-cases (tsn == ack)) [
  | inl e ↦
      let here : sn_lte tsn ack ≡ true = sn_lte_lem tsn ack ∙ e in
      let not_j : (tsn == j) ≡ false = ground (arith, e, h) in
      rw here (
        ack_cumulative_other ack j tsns (Map.delete tsn queue) h
        ∙ get-delete_other j tsn queue not_j)
  | inr e ↦
      let kept : sn_lte tsn ack ≡ false = sn_lte_lem tsn ack ∙ e in
      rw kept (ack_cumulative_other ack j tsns queue h)
]

-- How often a key stands in a list.
abbrev count : ℕ → List ℕ → ℕ
count j [] = 0
count j (k ∷ ks) = if k == j then suc (count j ks) else count j ks

count-delete :
    (j : ℕ) (queue : List (ℕ × Buffer))
    → count j (Map.keys (Map.delete j queue)) ≡ count j (Map.keys queue) - 1
unfolding Map.delete
count-delete j [] = refl
count-delete j ((k, b) ∷ queue) = elim (Bool-cases (k == j)) [
  | inl e ↦ rw e (omega arith)
  | inr e ↦ rw e (rw e (count-delete j queue))
]

count-get :
    (j : ℕ) (queue : List (ℕ × Buffer)) → count j (Map.keys queue) ≡ 0 → Map.get j queue ≡ none
unfolding Map.get
count-get j [] h = refl
count-get j ((k, b) ∷ queue) h = elim (Bool-cases (k == j)) [
  | inl e ↦
      let more : suc (count j (Map.keys queue)) ≡ 0 = rw e at h in absurd (omega (arith, more))
  | inr e ↦ rw e (count-get j queue (rw e at h))
]

-- The chunk that the cumulative TSN names goes, where the loop runs over all keys.
ack_cumulative_here :
    (ack : ℕ) (tsns : List ℕ) (queue : List (ℕ × Buffer))
    → count ack (Map.keys queue) ≤ count ack tsns
    → Map.get ack (ack_cumulative ack tsns queue) ≡ none
unfolding ack_cumulative
ack_cumulative_here ack [] queue h = count-get ack queue (omega (arith, h))
ack_cumulative_here ack (tsn ∷ tsns) queue h = elim (Bool-cases (tsn == ack)) [
  | inl e ↦
      let here : sn_lte tsn ack ≡ true = sn_lte_lem tsn ack ∙ e in
      let same : tsn ≡ ack = (==_iff tsn ack).0 e in
      let fewer : count ack (Map.keys queue) ≤ suc (count ack tsns) = rw e at h in
      rw (here, same)
        (ack_cumulative_here ack tsns (Map.delete ack queue)
          (omega (arith, fewer, count-delete ack queue)))
  | inr e ↦
      let kept : sn_lte tsn ack ≡ false = sn_lte_lem tsn ack ∙ e in
      rw kept (ack_cumulative_here ack tsns queue (rw e at h))
]

-- A SACK that parses and has no gap blocks is handled without an error, takes the chunk whose TSN is the
-- cumulative TSN itself off the queue of sent chunks, and leaves every other chunk in it: those below
-- the cumulative TSN stay too.
pub handle_sack-get :
    (chunk : ParsedChunk) (s : SackBody) (j : ℕ) (a : Assoc)
    → parse_sack_body chunk.body ≡ ok s
    → s.gap_blocks ≡ []
    → j ≢ s.cumulative_tsn_ack
    → let o = handle_sack chunk a in
      (o.result ≡ ok tt)
      × (Map.get s.cumulative_tsn_ack o.assoc.sent_queue ≡ none)
      × (Map.get j o.assoc.sent_queue ≡ Map.get j a.sent_queue)
unfolding handle_sack ack_blocks
handle_sack-get chunk s j a parsed gaps other =
    rw (parsed, gaps)
      (
        refl,
        ack_cumulative_here s.cumulative_tsn_ack (Map.keys a.sent_queue) a.sent_queue (omega arith),
        ack_cumulative_other s.cumulative_tsn_ack j (Map.keys a.sent_queue) a.sent_queue other,
      )
