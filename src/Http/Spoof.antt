-- ===== src/Http/Spoof.antt =====
-- What a client can write into `X-Forwarded-For` does not change the address that
-- internal/interfaces/httpapi/ipallow.go finds.
use Prim.Native.Char.{Char, code}
use mathlib.Core.List.{reverse, reverse-append}
use text.Mathlib.TextLemmas.{nil-append, cons-append, append-eq-nil_iff}
use config_sync_nginx.Base.{
  ℕ, String, true, false, ◌==◌, ◌≡◌, refl, sym, ap, List, [], ◌∷◌, ◌++◌, ◌<>◌, Option, none, some,
  Fallible, ok, err, inl, inr, eq_iff, Bool-cases, Option-cases, nat_eq, ◌∙◌, subst,
}
use config_sync_nginx.Base.Text.{split_on, grow_first, trim_space}
use config_sync_nginx.Http.Access.{
  Net, IpAccessParsed, Request, forwarded_for, forwarded, ip_in_any_net, walk_hops, behind_proxies,
  client_of_peer, client_of_parsed, client_of_host, effective_client_ip, host_only_from_remote_addr,
}

grow_first-++ :
    (c : Char) (xs ys : List String) (x : String)
    → grow_first c ((x ∷ xs) ++ ys) ≡ grow_first c (x ∷ xs) ++ ys
unfolding grow_first
grow_first-++ c xs ys x = refl

-- A text that is split has a first part.
split_on-∷ : (x : ℕ) (s : String) → (h : String) × (hs : List String) × (split_on x s ≡ h ∷ hs)
unfolding split_on grow_first
split_on-∷ x String.[] = (String.[], [], refl)
split_on-∷ x (String.◌∷◌ c s) = elim (Bool-cases (nat_eq (code c) x)) [
  | inl here ↦ (String.[], split_on x s, rw here refl)
  | inr there ↦ let (h, hs, e) = split_on-∷ x s in (String.◌∷◌ c h, hs, rw (there, e) refl)
]

split_on-<> :
    (x : ℕ) (c : Char) (s t : String)
    → nat_eq (code c) x ≡ true
    → split_on x (s <> String.◌∷◌ c t) ≡ split_on x s ++ split_on x t
unfolding split_on
split_on-<> x c String.[] t here = rw (nil-append (String.◌∷◌ c t), here) refl
split_on-<> x c (String.◌∷◌ d s) t here = elim (Bool-cases (nat_eq (code d) x)) [
  | inl cut ↦ rw (cons-append d s (String.◌∷◌ c t), cut, split_on-<> x c s t here) refl
  | inr grow ↦
      let (h, hs, e) = split_on-∷ x s in
      rw (cons-append d s (String.◌∷◌ c t), grow, split_on-<> x c s t here, e)
        (grow_first-++ d hs (split_on x t) h)
]

comma-<> : (s : String) → "," <> s ≡ String.◌∷◌ "," s
comma-<> s = cons-append "," "" s ∙ ap (String.◌∷◌ ",") (nil-append s)

-- A text with a comma in it is not blank.
<>-blank : (left s : String) → ((left <> "," <> s) == "") ≡ false
<>-blank left s = elim (Bool-cases ((left <> "," <> s) == "")) [
  | inr apart ↦ apart
  | inl same ↦
      let all_blank : left <> ("," <> s) ≡ "" = (eq_iff (left <> "," <> s) "").0 same in
      let blank : "," <> s ≡ "" = ((append-eq-nil_iff {p = left} {q = "," <> s}).0 all_blank).1 in
      let comma_blank = ((append-eq-nil_iff {p = ","} {q = s}).0 blank).0 in absurd (cc)
]

forwarded-some :
    (r : Request) → (forwarded_for r == "") ≡ false → forwarded r ≡ some (forwarded_for r)
unfolding forwarded
forwarded-some r named = rw named refl

module _ {Ip Network : Type 0} (net : Net Ip Network) where
  -- The walk ends at the first hop that is not trusted: what stands behind it is not read.
  walk_hops-++ :
      (trusted : List Network) (ip found : Ip) (near far : List String)
      → walk_hops net trusted ip near ≡ some found
      → ip_in_any_net net found trusted ≡ false
      → walk_hops net trusted ip (near ++ far) ≡ some found
  unfolding walk_hops
  walk_hops-++ trusted ip found [] [] walked foreign = walked
  walk_hops-++ trusted ip found [] (hop ∷ far) walked foreign =
      let same : ip ≡ found = cc in rw (same, foreign) refl
  walk_hops-++ trusted ip found (hop ∷ near) far walked foreign =
      elim (Bool-cases (ip_in_any_net net ip trusted)) [
        | inr outside ↦ rw outside (rw outside at walked)
        | inl inside ↦ elim (Option-cases (net.parse_ip (trim_space hop))) [
          | inl malformed ↦
              let h : none ≡ some found = rw (inside, malformed) at walked in absurd (cc)
          | inr (ip₁, parsed) ↦
              rw (inside, parsed)
                (walk_hops-++ trusted ip₁ found near far (rw (inside, parsed) at walked) foreign)
        ]
      ]

  behind_proxies-<> :
      (trusted : List Network) (ip found : Ip) (left hops : String)
      → behind_proxies net trusted ip (some hops) ≡ some found
      → ip_in_any_net net found trusted ≡ false
      → behind_proxies net trusted ip (some (left <> "," <> hops)) ≡ some found
  unfolding behind_proxies
  behind_proxies-<> trusted ip found left hops walked foreign =
      rw
        (
          comma-<> hops,
          split_on-<> b',' "," left hops refl,
          reverse-append (split_on b',' left) (split_on b',' hops),
        )
        (walk_hops-++ trusted ip found _ (reverse (split_on b',' left)) walked foreign)

  client_of_peer-<> :
      (access : IpAccessParsed Network) (r forged : Request) (left : String) (ip found : Ip)
      → (forwarded_for r == "") ≡ false
      → forwarded_for forged ≡ left <> "," <> forwarded_for r
      → client_of_peer net access r ip ≡ some found
      → ip_in_any_net net found access.trusted ≡ false
      → client_of_peer net access forged ip ≡ some found
  unfolding client_of_peer
  client_of_peer-<> access r forged left ip found named forgery was foreign =
      elim (Bool-cases (ip_in_any_net net ip access.trusted)) [
        | inr outside ↦ rw outside (rw outside at was)
        | inl inside ↦
            let walked =
              subst (λ o. behind_proxies net access.trusted ip o ≡ some found)
                (forwarded-some r named) (rw inside at was) in
            rw
              (
                inside,
                forwarded-some forged (rw forgery (<>-blank left (forwarded_for r))),
                forgery,
              )
              (behind_proxies-<> access.trusted ip found left (forwarded_for r) walked foreign)
      ]

  client_of_parsed-<> :
      (access : IpAccessParsed Network) (r forged : Request) (left : String) (peer : Option Ip)
      (found : Ip)
      → (forwarded_for r == "") ≡ false
      → forwarded_for forged ≡ left <> "," <> forwarded_for r
      → client_of_parsed net access r peer ≡ some found
      → ip_in_any_net net found access.trusted ≡ false
      → client_of_parsed net access forged peer ≡ some found
  unfolding client_of_parsed
  client_of_parsed-<> access r forged left none found named forgery was foreign = absurd (cc)
  client_of_parsed-<> access r forged left (some ip) found named forgery was foreign =
      client_of_peer-<> access r forged left ip found named forgery was foreign

  client_of_host-<> :
      (access : IpAccessParsed Network) (r forged : Request) (left : String)
      (host : Fallible String) (found : Ip)
      → (forwarded_for r == "") ≡ false
      → forwarded_for forged ≡ left <> "," <> forwarded_for r
      → client_of_host net access r host ≡ some found
      → ip_in_any_net net found access.trusted ≡ false
      → client_of_host net access forged host ≡ some found
  unfolding client_of_host
  client_of_host-<> access r forged left (err e) found named forgery was foreign = absurd (cc)
  client_of_host-<> access r forged left (ok host) found named forgery was foreign =
      client_of_parsed-<> access r forged left (net.parse_ip host) found named forgery was foreign

  -- Whatever a client writes in front of the hops that the proxies put into `X-Forwarded-For`, the
  -- address that is found is the same, once it is not that of a trusted proxy.
  pub effective_client_ip-<> :
      (access : IpAccessParsed Network) (r forged : Request) (left : String) (found : Ip)
      → forged.remote_addr ≡ r.remote_addr
      → (forwarded_for r == "") ≡ false
      → forwarded_for forged ≡ left <> "," <> forwarded_for r
      → effective_client_ip net access r ≡ some found
      → ip_in_any_net net found access.trusted ≡ false
      → effective_client_ip net access forged ≡ some found
  unfolding effective_client_ip
  effective_client_ip-<> access r forged left found peer named forgery was foreign =
      subst (λ a. client_of_host net access forged (host_only_from_remote_addr net a) ≡ some found)
        (sym peer)
        (client_of_host-<> access r forged left (host_only_from_remote_addr net r.remote_addr) found
          named forgery was foreign)
