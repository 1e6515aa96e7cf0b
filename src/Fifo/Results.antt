-- ===== src/Fifo/Results.antt =====
-- What the server gets of the client's lines, and where the two programs come to rest.
use aup_assignments.Prelude.{
  ℕ, ◌≡◌, sym, ap, ◌∙◌, Bool, false, List, [], ◌++◌, append_assoc, append-nil, arith, inl, inr,
}
use aup_assignments.Unix.Bytes.{Bytes}
use aup_assignments.Fifo.{
  Client, making, in_open, getting, measuring, writing, remeasuring, closing, failed, killed,
  Server, State, Reach,
}
use aup_assignments.Fifo.Stream.{flat, rest, SourceOk, Reach-Inv}

beginning :
    (q : Client) (sent line : Bytes) (input : List Bytes) (all : Bytes)
    → SourceOk q sent line input all
    → (more : Bytes) × (sent ++ more ≡ all)
beginning failed sent line input all (inl h) = ([], h)
beginning failed sent line input all (inr (inl h)) = (flat input, h)
beginning failed sent line input all (inr (inr h)) = (line ++ flat input, h)
beginning killed sent line input all (inl h) = ([], h)
beginning killed sent line input all (inr (inl h)) = (flat input, h)
beginning killed sent line input all (inr (inr h)) = (line ++ flat input, h)
beginning making sent line input all h = (rest making line input, h)
beginning Client.opening sent line input all h = (rest Client.opening line input, h)
beginning in_open sent line input all h = (rest in_open line input, h)
beginning getting sent line input all h = (rest getting line input, h)
beginning measuring sent line input all h = (rest measuring line input, h)
beginning writing sent line input all h = (rest writing line input, h)
beginning remeasuring sent line input all h = (rest remeasuring line input, h)
beginning closing sent line input all h = (rest closing line input, h)
beginning Client.ended sent line input all h = (rest Client.ended line input, h)

pub got-beginning :
    {room : ℕ} {fifo : Bool} {lines : List Bytes} {n : ℕ} {s : State}
    → Reach room fifo lines n s
    → (more : Bytes) × (s.got ++ more ≡ flat lines)
got-beginning {lines} {s} r =
    let v = Reach-Inv r in
    let (more, e) = beginning s.client s.sent s.line s.input (flat lines) v.source in
    (s.pipe ++ more, sym (append_assoc s.got s.pipe more) ∙ ap (λ l. l ++ more) v.stream ∙ e)

-- In every reachable state in which no array has been written past its end, whatever calls fail and in
-- whatever order the programs run, what the server has read is a beginning of the client's lines, each up to its first zero byte and with no newline: no
-- byte is lost in between, doubled or out of order. When both programs have ended and no call has
-- failed in either, it is all of them.
pub delivered_in_order :
    {room : ℕ} {fifo : Bool} {lines : List Bytes} {n : ℕ} {s : State}
    → Reach room fifo lines n s
    → s.overrun ≡ false
    → ((more : Bytes) × (s.got ++ more ≡ flat lines))
      × (s.client ≡ Client.ended → s.server ≡ Server.ended → s.got ≡ flat lines)
delivered_in_order {lines} {s} r fits =
    let v = Reach-Inv r in
    (
      got-beginning r,
      λ hc hs. ground (arith, v.finite, v.source, v.stream, append-nil s.got, append-nil s.sent),
    )
