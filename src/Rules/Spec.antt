-- ===== src/Rules/Spec.antt =====
-- The rule expressions that the sender builds: build_hop_forward_rules_spec of
-- SCMultipath/overlay_manager.c and build_hop_run_darshana_spec of SCMultipath/path_monitoring.c.
-- A chain of strcpy and strcat is a concatenation; the bounds below say that the buffers hold it.
use premium.Base.{
  ◌∷◌, Bool-cases, inl, inr, ℕ, ◌<◌, ◌++◌, ◌≡◌, arith, ◌==◌, if◌then◌else◌, length, length-append,
}
use premium.Text.{Bytes, codes}
use premium.Text.Decimal.{decimal, decimal-length}
use premium.Wire.{rule_size}

abbrev pub darshana_monitoring_mode : Bytes
darshana_monitoring_mode = codes "lat"

abbrev pub darshana_metrics_thresholds : Bytes
darshana_metrics_thresholds = codes "1 1 0.8 1.5 0.3 1"

abbrev pub ip_addr_length : ℕ
ip_addr_length = 20

-- `type` is 1 to append a rule and anything else to delete it.
abbrev pub action : ℕ → Bytes
action type = if type == 1 then codes "A" else codes "D"

unfoldable pub build_hop_forward_rules_spec : Bytes → Bytes → ℕ → ℕ → Bytes
build_hop_forward_rules_spec source_ip destination_ip destination_port type =
    (if type == 1 then codes "A-" else codes "D-")
    ++ (source_ip ++ (codes "-" ++ (destination_ip ++ (codes "-" ++ decimal destination_port))))

unfoldable pub build_hop_run_darshana_spec : Bytes → ℕ → Bytes → ℕ → ℕ → Bytes
build_hop_run_darshana_spec sender_dar_ip sender_dar_port darshana_target_dst_ip
      darshana_target_dst_port type =
    (if type == 1 then codes "A-" else codes "D-")
    ++ (sender_dar_ip
        ++ (codes "-"
            ++ (decimal sender_dar_port
                ++ (codes "-"
                    ++ (darshana_target_dst_ip
                        ++ (codes "-"
                            ++ (decimal darshana_target_dst_port
                                ++ (codes "-"
                                    ++ (darshana_monitoring_mode
                                        ++ (codes "-" ++ darshana_metrics_thresholds))))))))))

-- The fields of each expression, a dash between them.
pub forward_fields :
    (src dst : Bytes) (port type : ℕ)
    → build_hop_forward_rules_spec src dst port type
      ≡ action type ++ b'-' ∷ (src ++ b'-' ∷ (dst ++ b'-' ∷ decimal port))
unfolding build_hop_forward_rules_spec
forward_fields src dst port type = elim (Bool-cases (type == 1)) [ inl e ↦ rw e | inr e ↦ rw e ]

pub darshana_fields :
    (dar dst : Bytes) (dar_port port type : ℕ)
    → build_hop_run_darshana_spec dar dar_port dst port type
      ≡ action type
        ++ b'-'
          ∷ (dar
              ++ b'-'
                ∷ (decimal dar_port
                    ++ b'-'
                      ∷ (dst
                          ++ b'-'
                            ∷ (decimal port
                                ++ b'-'
                                  ∷ (darshana_monitoring_mode
                                      ++ b'-' ∷ darshana_metrics_thresholds)))))
unfolding build_hop_run_darshana_spec
darshana_fields dar dst dar_port port type = elim (Bool-cases (type == 1)) [
  | inl e ↦ rw e
  | inr e ↦ rw e
]

action-length : (type : ℕ) → length (action type) ≡ 1
action-length type = ground arith

-- Both rule expressions fit the RULE_SIZE buffers with their NUL, for addresses that fit
-- IP_ADDR_LENGTH with theirs and ports below 65536.
pub rule_specs_fit :
    (src dst : Bytes) (port dar_port type : ℕ)
    → length src < ip_addr_length
    → length dst < ip_addr_length
    → port < 65536
    → dar_port < 65536
    → (length (build_hop_forward_rules_spec src dst port type) < rule_size)
      × (length (build_hop_run_darshana_spec src dar_port dst port type) < rule_size)
unfolding build_hop_forward_rules_spec build_hop_run_darshana_spec
rule_specs_fit src dst port dar_port type hs hd hp hq =
    rw (forward_fields, darshana_fields)
      (simp length-append
        (omega (arith, action-length type, decimal-length port hp, decimal-length dar_port hq)))
