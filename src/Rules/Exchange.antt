-- ===== src/Rules/Exchange.antt =====
-- The two ends of the control protocol together: what a node does on the rule expressions that the
-- sender builds and sends.
use premium.Base.{
  replicate, inl, inr, ℕ, ◌<◌, List, [], ◌∷◌, ◌++◌, ◌≡◌, some, arith, map, ◌==◌, Bool-cases,
  if◌then◌else◌, length, All-append, refl,
}
use premium.Text.{Bytes, str_eq, c_string, Token, NoNul}
use premium.Text.Token.{next_token_step, next_token_last}
use premium.Text.Decimal.{decimal, decimal-All, decimal-ne-nil, Lacks-of_digits}
use premium.Wire.{buffer_length, send_rule, recv_into, c_string-recv_into}
use premium.Rules.Spec.{
  ip_addr_length, darshana_monitoring_mode, darshana_metrics_thresholds, action,
  build_hop_forward_rules_spec, build_hop_run_darshana_spec, forward_fields, darshana_fields,
  rule_specs_fit,
}
use premium.Rules.Nat.{forward_paths, remove_rules}
use premium.Rules.Node.{
  dash, NodeAction, send_type, create_thread, cancel_thread, Client, run_darshana_client,
  receive_darshana_rule_specification, serve_client, system, receive_forwarding_rule_specification,
}

-- A text that stands in a rule expression as one field.
pub record IsField (s : Bytes) : Type 0 where
  pub token : Token dash s
  pub no_nul : NoNul s

decimal-IsField : (n : ℕ) → IsField (decimal n)
decimal-IsField n = record {
  token = (decimal-ne-nil n, Lacks-of_digits dash (decimal n) (inl (omega arith)) (decimal-All n));
  no_nul = Lacks-of_digits 0 (decimal n) (inl (omega arith)) (decimal-All n);
}

action-IsField : (type : ℕ) → IsField (action type)
action-IsField type = elim (Bool-cases (type == 1)) [
  | inl e ↦ rw e (record { token = (cc, omega arith); no_nul = omega arith })
  | inr e ↦ rw e (record { token = (cc, omega arith); no_nul = omega arith })
]

mode-IsField : IsField darshana_monitoring_mode
mode-IsField = record { token = (cc, omega arith); no_nul = omega arith }

thresholds-IsField : IsField darshana_metrics_thresholds
thresholds-IsField = record { token = (cc, omega arith); no_nul = omega arith }

-- A field, a dash and the fields behind it hold no NUL.
with_dash : (s t : Bytes) → IsField s → NoNul t → NoNul (s ++ dash ∷ t)
with_dash s t f h = All-append _ s (dash ∷ t) f.no_nul (omega arith, h)

pub forward-NoNul :
    (src dst : Bytes) (port type : ℕ)
    → IsField src
    → IsField dst
    → NoNul (build_hop_forward_rules_spec src dst port type)
forward-NoNul src dst port type hs hd = rw forward_fields (
    with_dash (action type) _ (action-IsField type)
      (with_dash src _ hs (with_dash dst _ hd (decimal-IsField port).no_nul)))

pub darshana-NoNul :
    (dar dst : Bytes) (dar_port port type : ℕ)
    → IsField dar
    → IsField dst
    → NoNul (build_hop_run_darshana_spec dar dar_port dst port type)
darshana-NoNul dar dst dar_port port type hs hd = rw darshana_fields (
    with_dash (action type) _ (action-IsField type) (
      with_dash dar _ hs (
        with_dash (decimal dar_port) _ (decimal-IsField dar_port) (
          with_dash dst _ hd (
            with_dash (decimal port) _ (decimal-IsField port) (
              with_dash darshana_monitoring_mode darshana_metrics_thresholds mode-IsField
                thresholds-IsField.no_nul))))))

-- What a node does on a forwarding expression.
abbrev pub forwarding_actions : Bytes → Bytes → Bytes → ℕ → ℕ → List NodeAction
forwarding_actions overlay src dst port type =
    send_type (action type)
    ∷ map system (
        if type == 1
        then forward_paths overlay src dst (decimal port)
        else remove_rules overlay src dst (decimal port))

pub forward_tokens :
    (overlay src dst : Bytes) (port type : ℕ) (buffer : Bytes)
    → IsField src
    → IsField dst
    → c_string buffer ≡ build_hop_forward_rules_spec src dst port type
    → receive_forwarding_rule_specification overlay buffer
      ≡ some (forwarding_actions overlay src dst port type)
unfolding receive_forwarding_rule_specification str_eq
forward_tokens overlay src dst port type buffer hs hd e =
    rw
      (
        e,
        forward_fields,
        next_token_step dash (action type) _ (action-IsField type).token,
        next_token_step dash src _ hs.token,
        next_token_step dash dst _ hd.token,
        next_token_last dash (decimal port) (decimal-IsField port).token,
      )
      (elim (Bool-cases (type == 1)) [ inl a ↦ rw a | inr a ↦ rw a ])

abbrev pub darshana_actions : Bytes → Bytes → ℕ → Bytes → ℕ → ℕ → List NodeAction
darshana_actions overlay dar dar_port dst port type =
    send_type (action type)
    ∷ (if type == 1
        then create_thread (
            run_darshana_client overlay dar (decimal dar_port) dst (decimal port)
              darshana_monitoring_mode darshana_metrics_thresholds)
        else cancel_thread)
    ∷ []

pub darshana_tokens :
    (overlay dar dst : Bytes) (dar_port port type : ℕ) (buffer : Bytes)
    → IsField dar
    → IsField dst
    → c_string buffer ≡ build_hop_run_darshana_spec dar dar_port dst port type
    → receive_darshana_rule_specification overlay buffer
      ≡ some (darshana_actions overlay dar dar_port dst port type)
unfolding receive_darshana_rule_specification str_eq
darshana_tokens overlay dar dst dar_port port type buffer hs hd e =
    rw
      (
        e,
        darshana_fields,
        next_token_step dash (action type) _ (action-IsField type).token,
        next_token_step dash dar _ hs.token,
        next_token_step dash (decimal dar_port) _ (decimal-IsField dar_port).token,
        next_token_step dash dst _ hd.token,
        next_token_step dash (decimal port) _ (decimal-IsField port).token,
        next_token_step dash darshana_monitoring_mode _ mode-IsField.token,
        next_token_last dash darshana_metrics_thresholds thresholds-IsField.token,
      )
      (elim (Bool-cases (type == 1)) [ inl a ↦ rw a | inr a ↦ rw a ])

-- The sender's two messages for one flow, as a node receives them.
abbrev pub exchange : Bytes → Bytes → Bytes → ℕ → ℕ → ℕ → Bytes → Bytes → Client
exchange src dar dst port dar_port type junk stale = record {
  forwarding_chunk = send_rule (build_hop_forward_rules_spec src dst port type) junk;
  darshana_chunk = send_rule (build_hop_run_darshana_spec dar dar_port dst port type) junk;
  stale = stale;
}

-- A node that receives the two messages of one flow answers the type of each and, if the type is 1,
-- runs the four commands that set the path and starts its Darshana client; for any other type it
-- runs the four commands that remove the path and cancels the client. This holds whatever malloc
-- left in the sender's buffers and whatever the node's buffer held before, for addresses that are
-- not empty, hold no dash or NUL and fit IP_ADDR_LENGTH, and ports below 65536.
pub serve_client-exchange :
    (overlay src dar dst : Bytes) (port dar_port type : ℕ) (junk stale : Bytes)
    → IsField src
    → IsField dar
    → IsField dst
    → length src < ip_addr_length
    → length dar < ip_addr_length
    → length dst < ip_addr_length
    → port < 65536
    → dar_port < 65536
    → serve_client overlay (exchange src dar dst port dar_port type junk stale)
      ≡ some (
          forwarding_actions overlay src dst port type
          ++ darshana_actions overlay dar dar_port dst port type)
unfolding serve_client
serve_client-exchange overlay src dar dst port dar_port type junk stale fs fd ft ls ld lt hp hq =
    let c = exchange src dar dst port dar_port type junk stale in
    let fits = rule_specs_fit src dst port dar_port type ls lt hp hq in
    let dar_fits = rule_specs_fit dar dst port dar_port type ld lt hp hq in
    let got = c_string-recv_into _ junk stale (forward-NoNul src dst port type fs ft) fits.0 in
    let got_dar =
      c_string-recv_into _ junk (replicate buffer_length 0)
        (darshana-NoNul dar dst dar_port port type fd ft) dar_fits.1 in
    rw
      (
        forward_tokens overlay src dst port type (recv_into stale c.forwarding_chunk) fs ft got,
        darshana_tokens overlay dar dst dar_port port type
            (recv_into (replicate buffer_length 0) c.darshana_chunk) fd ft got_dar,
      )
      refl
