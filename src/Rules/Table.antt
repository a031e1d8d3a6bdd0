-- ===== src/Rules/Table.antt =====
-- The NAT table on which the commands of Rules/Nat act. iptables is no part of the program, so that it
-- is a parameter with what its manual says of -A and -D, for texts that it accepts as a rule; the
-- chain is part of a rule, and all chains are one list.
pub mod Node
use premium.Base.{
  ◌+◌, List, [], ◌∷◌, ◌++◌, ◌≡◌, refl, ap, sym, ◌∙◌, ◌↔◌, Bool, true, false, map, All, append-nil,
  append_assoc, Bool-cases, inl, inr, arith, if◌then◌else◌,
}
use premium.Text.{Bytes, codes}

-- The first element that is the same is taken out.
abbrev pub erase {ℓ} : {A : Type ℓ} → (A → A → Bool) → A → List A → List A
erase same a [] = []
erase same a (x ∷ xs) = if same a x then xs else x ∷ erase same a xs

abbrev pub erase_all {ℓ} : {A : Type ℓ} → (A → A → Bool) → List A → List A → List A
erase_all same [] xs = xs
erase_all same (a ∷ as') xs = erase_all same as' (erase same a xs)

abbrev pub append_command : Bytes → Bytes
append_command rule = codes "iptables -t nat -A" ++ rule

abbrev pub delete_command : Bytes → Bytes
delete_command rule = codes "iptables -t nat -D" ++ rule

pub record Iptables : Type 1 where
  pub Table : Type 0
  pub Rule : Type 0
  pub same : Rule → Rule → Bool
  pub same_iff : (a b : Rule) → (same a b ≡ true) ↔ (a ≡ b)
  -- the texts that are accepted, and the rule that such a text is
  pub IsRule : Bytes → Type 0
  pub rule_of : Bytes → Rule
  pub run : Bytes → Table → Table
  pub rules : Table → List Rule
  pub appends :
      (text : Bytes) (t : Table)
      → IsRule text
      → rules (run (append_command text) t) ≡ rules t ++ rule_of text ∷ []
  pub deletes :
      (text : Bytes) (t : Table)
      → IsRule text
      → rules (run (delete_command text) t) ≡ erase same (rule_of text) (rules t)

module _ (ipt : Iptables) where
  open ipt use {Table, Rule, same, same_iff, IsRule, rule_of, run, rules, appends, deletes}

  -- The commands that the program hands to system, one after the other.
  abbrev pub run_all : List Bytes → Table → Table
  run_all [] t = t
  run_all (c ∷ cs) t = run_all cs (run c t)

  abbrev pub LacksRule : Rule → List Rule → Type 0
  LacksRule r rs = All (λ q. same r q ≡ false) rs

  pub run_all-append :
      (cs ds : List Bytes) (t : Table) → run_all (cs ++ ds) t ≡ run_all ds (run_all cs t)
  run_all-append [] ds t = refl
  run_all-append (c ∷ cs) ds t = run_all-append cs ds (run c t)

  pub run_all-appends :
      (texts : List Bytes) (t : Table)
      → All IsRule texts
      → rules (run_all (map append_command texts) t) ≡ rules t ++ map rule_of texts
  run_all-appends [] t h = sym (append-nil (rules t))
  run_all-appends (x ∷ texts) t (h, hs) =
      run_all-appends texts (run (append_command x) t) hs
      ∙ ap (λ rs. rs ++ map rule_of texts) (appends x t h)
      ∙ append_assoc (rules t) (rule_of x ∷ []) (map rule_of texts)

  pub run_all-deletes :
      (texts : List Bytes) (t : Table)
      → All IsRule texts
      → rules (run_all (map delete_command texts) t) ≡ erase_all same (map rule_of texts) (rules t)
  run_all-deletes [] t h = refl
  run_all-deletes (x ∷ texts) t (h, hs) =
      run_all-deletes texts (run (delete_command x) t) hs
      ∙ ap (erase_all same (map rule_of texts)) (deletes x t h)

  same_refl : (r : Rule) → same r r ≡ true
  same_refl r = (same_iff r r).1 refl

  erase-behind :
      (r : Rule) (rs qs : List Rule) → LacksRule r rs → erase same r (rs ++ r ∷ qs) ≡ rs ++ qs
  erase-behind r [] qs h = rw (same_refl r) refl
  erase-behind r (q ∷ rs) qs (h, hs) = rw h (ap (λ l. q ∷ l) (erase-behind r rs qs hs))

  -- Rules that are in no place of a table leave it as it was when they are appended and taken out.
  pub erase_all-appended :
      (added rs : List Rule)
      → All (λ r. LacksRule r rs) added
      → erase_all same added (rs ++ added) ≡ rs
  erase_all-appended [] rs h = append-nil rs
  erase_all-appended (r ∷ added) rs (h, hs) =
      ap (erase_all same added) (erase-behind r rs added h) ∙ erase_all-appended added rs hs

  pub erase_all-append :
      (as' bs rs : List Rule)
      → erase_all same (as' ++ bs) rs ≡ erase_all same bs (erase_all same as' rs)
  erase_all-append [] bs rs = refl
  erase_all-append (a ∷ as') bs rs = erase_all-append as' bs (erase same a rs)
