-- ===== src/Webhook/ClientIp/Laws.antt =====
-- What a client writes before the entries of the trusted proxies does not change its address.
use mathlib.Core.List.{append_assoc}
use kubezap_operator.Base.{
  ℕ, zero, suc, String, ◌≡◌, refl, sym, ap, ◌∙◌, subst, true, false, ◌||◌, not, List, [], ◌∷◌, ◌++◌,
  take, arith, ◌==◌, ◌⊎◌, inl, inr, Bool-cases, String-cases, is_empty,
}
use kubezap_operator.Base.Text.{◌⧺◌, split}
use kubezap_operator.Base.Text.Trim.{trim_space}
use kubezap_operator.Base.Text.Split.{split-comma}
use kubezap_operator.Ssrf.Address.{IpNet}
use kubezap_operator.Webhook.{Library}
use kubezap_operator.Webhook.ClientIp.{
  stopped_at, latest_first, is_trusted_proxy, walk, walk_forwarded, client_ip,
  max_forwarded_for_hops,
}

latest_first-append :
    (later xs ys : List String)
    → latest_first later (xs ++ ys) ≡ latest_first (latest_first later xs) ys
unfolding latest_first
latest_first-append later [] ys = refl
latest_first-append later (x ∷ xs) ys = latest_first-append (x ∷ later) xs ys

latest_first-later : (later xs : List String) → latest_first later xs ≡ latest_first [] xs ++ later
unfolding latest_first
latest_first-later later [] = refl
latest_first-later later (x ∷ xs) =
    latest_first-later (x ∷ later) xs
    ∙ sym (append_assoc (latest_first [] xs) (x ∷ []) later)
    ∙ ap (λ l. l ++ later) (sym (latest_first-later (x ∷ []) xs))

module _ {Keyset : Type 0} (lib : Library Keyset) (proxies : List IpNet) where
  -- A walk that stops does so whatever comes after.
  walk-longer :
      (n : ℕ) (left entry : String) (xs ys : List String)
      → walk lib proxies left (take n xs) ≡ stopped_at entry
      → walk lib proxies left (take n (xs ++ ys)) ≡ stopped_at entry
  unfolding walk
  walk-longer zero left entry xs ys h = h
  walk-longer (suc n) left entry [] ys h = ground arith
  walk-longer (suc n) left entry (x ∷ xs) ys h =
      ground (arith, walk-longer n left entry xs ys, walk-longer n (trim_space x) entry xs ys)

  walk_forwarded-prepend :
      (forged forwarded entry : String)
      → walk_forwarded lib proxies forwarded ≡ stopped_at entry
      → walk_forwarded lib proxies (forged ⧺ "," ⧺ forwarded) ≡ stopped_at entry
  unfolding walk_forwarded
  walk_forwarded-prepend forged forwarded entry h = rw (split-comma forged forwarded) (
      rw (latest_first-append [] (split b',' forged) (split b',' forwarded)) (
        rw (latest_first-later (latest_first [] (split b',' forged)) (split b',' forwarded)) (
          walk-longer max_forwarded_for_hops "" entry (latest_first [] (split b',' forwarded))
            (latest_first [] (split b',' forged)) h)))

  -- The walk of an empty header does not stop.
  walk_empty :
      (entry : String) → walk_forwarded lib proxies "" ≡ stopped_at entry → ("" == "") ≡ false
  unfolding walk_forwarded split latest_first walk
  walk_empty entry h = ground arith

  is_not_empty :
      (forwarded entry : String)
      → walk_forwarded lib proxies forwarded ≡ stopped_at entry
      → (forwarded == "") ≡ false
  is_not_empty forwarded entry h = elim (String-cases forwarded "") [
    | inl (p, e) ↦
        subst (λ s. (s == "") ≡ false) (sym p)
          (walk_empty entry (subst (λ s. walk_forwarded lib proxies s ≡ stopped_at entry) p h))
    | inr (_, e) ↦ e
  ]

  client_of_stop :
      (host forwarded real_ip entry : String)
      → (is_empty proxies || not (is_trusted_proxy lib host proxies)) ≡ false
      → walk_forwarded lib proxies forwarded ≡ stopped_at entry
      → client_ip lib proxies host forwarded real_ip ≡ entry
  unfolding client_ip
  client_of_stop host forwarded real_ip entry trusted h =
      rw trusted (rw (is_not_empty forwarded entry h) (rw h refl))

  client_of_stranger :
      (host forwarded real_ip : String)
      → (is_empty proxies || not (is_trusted_proxy lib host proxies)) ≡ true
      → client_ip lib proxies host forwarded real_ip ≡ host
  unfolding client_ip
  client_of_stranger host forwarded real_ip h = rw h refl

-- What a client writes into X-Forwarded-For before the entries of the proxies, and into X-Real-IP,
-- does not change the address that it is taken to have: if the peer is no trusted proxy, or if one of
-- the last 32 entries that the proxies wrote is not that of a trusted proxy.
pub client_ip-prepend :
    {Keyset : Type 0} (lib : Library Keyset) (proxies : List IpNet)
    (host forged forwarded real_ip forged_ip entry : String)
    → (is_empty proxies || not (is_trusted_proxy lib host proxies)) ≡ true
      ⊎ walk_forwarded lib proxies forwarded ≡ stopped_at entry
    → client_ip lib proxies host (forged ⧺ "," ⧺ forwarded) forged_ip
      ≡ client_ip lib proxies host forwarded real_ip
client_ip-prepend lib proxies host forged forwarded real_ip forged_ip entry (inl h) =
    client_of_stranger lib proxies host (forged ⧺ "," ⧺ forwarded) forged_ip h
    ∙ sym (client_of_stranger lib proxies host forwarded real_ip h)
client_ip-prepend lib proxies host forged forwarded real_ip forged_ip entry (inr h) =
    elim (Bool-cases (is_empty proxies || not (is_trusted_proxy lib host proxies))) [
      | inl e ↦
          client_of_stranger lib proxies host (forged ⧺ "," ⧺ forwarded) forged_ip e
          ∙ sym (client_of_stranger lib proxies host forwarded real_ip e)
      | inr e ↦
          client_of_stop lib proxies host (forged ⧺ "," ⧺ forwarded) forged_ip entry e
            (walk_forwarded-prepend lib proxies forged forwarded entry h)
          ∙ sym (client_of_stop lib proxies host forwarded real_ip entry e h)
    ]
