-- ===== src/Rules/Short.antt =====
-- A node under a sender whose first message lacks fields.
use premium.Base.{◌<◌, List, [], ◌∷◌, ◌++◌, ◌≡◌, refl, none, arith, All, length, bind_none}
use premium.Text.{Bytes, Token, c_string}
use premium.Text.Token.{next_token_step, next_token_last, next_token-nil}
use premium.Wire.{recv_into}
use premium.Rules.Node.{
  Client, dash, receive_forwarding_rule_specification, serve_client, start_overlay,
}

-- A text of fields with a dash between them.
abbrev pub fields_text : List Bytes → Bytes
fields_text [] = []
fields_text (t ∷ []) = t
fields_text (t ∷ u ∷ ts) = t ++ dash ∷ fields_text (u ∷ ts)

receive_short :
    (overlay_addr buffer : Bytes) (ts : List Bytes)
    → c_string buffer ≡ fields_text ts
    → All (Token dash) ts
    → length ts < 4
    → receive_forwarding_rule_specification overlay_addr buffer ≡ none
unfolding receive_forwarding_rule_specification
receive_short overlay_addr buffer [] held h few = rw (held, next_token-nil dash) refl
receive_short overlay_addr buffer (t ∷ []) held (ht, h) few =
    rw (held, next_token_last dash t ht, next_token-nil dash) refl
receive_short overlay_addr buffer (t ∷ u ∷ []) held (ht, (hu, h)) few =
    rw (held, next_token_step dash t _ ht, next_token_last dash u hu, next_token-nil dash) refl
receive_short overlay_addr buffer (t ∷ u ∷ v ∷ []) held (ht, (hu, (hv, h))) few =
    rw
      (
        held,
        next_token_step dash t _ ht,
        next_token_step dash u _ hu,
        next_token_last dash v hv,
        next_token-nil dash,
      )
      refl
receive_short overlay_addr buffer (t ∷ u ∷ v ∷ w ∷ ts) held h few = absurd (omega arith)

crash_ends :
    (overlay_addr : Bytes) (before : List Client) (c : Client) (later : List Client)
    → serve_client overlay_addr c ≡ none
    → start_overlay overlay_addr (before ++ c ∷ later) ≡ none
unfolding start_overlay
crash_ends overlay_addr [] c later h = rw h refl
crash_ends overlay_addr (b ∷ before) c later h =
    bind_none (serve_client overlay_addr b) _
      (λ now. rw (crash_ends overlay_addr before c later h) refl)

-- A sender whose first message leaves fewer than four fields in the node's buffer, for example none
-- since it connects and sends nothing, ends the node, whatever senders came before it, whatever it
-- sends next and whatever senders follow.
pub start_overlay_short :
    (overlay_addr : Bytes) (before : List Client) (c : Client) (later : List Client)
    (ts : List Bytes)
    → c_string (recv_into c.stale c.forwarding_chunk) ≡ fields_text ts
    → All (Token dash) ts
    → length ts < 4
    → start_overlay overlay_addr (before ++ c ∷ later) ≡ none
start_overlay_short overlay_addr before c later ts held h few =
    crash_ends overlay_addr before c later (
      unfold serve_client in
      rw (receive_short overlay_addr (recv_into c.stale c.forwarding_chunk) ts held h few) refl)
