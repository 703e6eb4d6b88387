-- ===== src/ArpCache/Requests.antt =====
-- The well-formed cache: distinct nodes, one request for an address, and at most five tries. Every
-- operation keeps it.
use computer_networking.Base.{
  ℕ, suc, ◌≤◌, ◌<◌, ◌≡◌, refl, ap, inl, inr, none, List, [], ◌∷◌, map, All, arith, length, ◌==◌,
  Bool-cases, Option-cases,
}
use computer_networking.State.{ArpEntry, ArpReq, ArpCache}
use computer_networking.ArpCache.{
  fill_slot, unlink_ip, insert, find_ip, on_node, add_packet, new_req, queuereq, unlink_node,
  destroy, stamp, stamped, expire, expire_entry, init, arpcache_sz,
}

-- The nodes fall along the list, and stay under the bound.
abbrev pub Below : ℕ → List ArpReq → Type 0
Below n [] = Unit {0}
Below n (r ∷ rs) = (r.node < n) × Below r.node rs

abbrev pub OnePerIp : List ArpReq → Type 0
OnePerIp [] = Unit {0}
OnePerIp (r ∷ rs) = (find_ip r.ip rs ≡ none) × OnePerIp rs

abbrev pub FewSent : List ArpReq → Type 0
FewSent = All λ r. r.times_sent ≤ 5

pub record Inv (c : ArpCache) : Type 0 where
  pub slots : length c.entries ≡ arpcache_sz
  pub nodes : Below c.next_node c.requests
  pub one_per_ip : OnePerIp c.requests
  pub few_sent : FewSent c.requests

-- The table keeps its size.
length-fill_slot : (new : ArpEntry) (es : List ArpEntry) → length (fill_slot new es) ≡ length es
unfolding fill_slot
length-fill_slot new [] = refl
length-fill_slot new (e ∷ es) = ground (arith, length-fill_slot new es)

length-map : (f : ArpEntry → ArpEntry) (es : List ArpEntry) → length (map f es) ≡ length es
length-map f [] = refl
length-map f (e ∷ es) = ap suc (length-map f es)

pub Below-mono : (m n : ℕ) (rs : List ArpReq) → m ≤ n → Below m rs → Below n rs
Below-mono m n [] h b = tt
Below-mono m n (r ∷ rs) h b = (omega arith, b.1)

-- Unlinking by address.
find_ip-unlink_ip :
    (j ip : ℕ) (rs : List ArpReq) → find_ip j rs ≡ none → find_ip j (unlink_ip ip rs).1 ≡ none
unfolding find_ip unlink_ip
find_ip-unlink_ip j ip [] h = refl
find_ip-unlink_ip j ip (r ∷ rs) h = ground (arith, find_ip-unlink_ip j ip rs)

unlink_ip-Below : (n ip : ℕ) (rs : List ArpReq) → Below n rs → Below n (unlink_ip ip rs).1
unfolding unlink_ip
unlink_ip-Below n ip [] b = tt
unlink_ip-Below n ip (r ∷ rs) b =
    ground (arith, unlink_ip-Below r.node ip rs b.1, Below-mono r.node n rs)

unlink_ip-OnePerIp : (ip : ℕ) (rs : List ArpReq) → OnePerIp rs → OnePerIp (unlink_ip ip rs).1
unfolding unlink_ip
unlink_ip-OnePerIp ip [] o = tt
unlink_ip-OnePerIp ip (r ∷ rs) o =
    ground (arith, unlink_ip-OnePerIp ip rs o.1, find_ip-unlink_ip r.ip ip rs o.0)

unlink_ip-FewSent : (ip : ℕ) (rs : List ArpReq) → FewSent rs → FewSent (unlink_ip ip rs).1
unfolding unlink_ip
unlink_ip-FewSent ip [] o = tt
unlink_ip-FewSent ip (r ∷ rs) o = ground (arith, unlink_ip-FewSent ip rs o.1)

-- The address has no request left.
pub find_ip-unlinked :
    (ip : ℕ) (rs : List ArpReq) → OnePerIp rs → find_ip ip (unlink_ip ip rs).1 ≡ none
unfolding find_ip unlink_ip
find_ip-unlinked ip [] o = refl
find_ip-unlinked ip (r ∷ rs) o = ground (arith, find_ip-unlinked ip rs o.1)

-- Unlinking a node.
pub find_ip-unlink_node :
    (j node : ℕ) (rs : List ArpReq) → find_ip j rs ≡ none → find_ip j (unlink_node node rs) ≡ none
unfolding find_ip unlink_node
find_ip-unlink_node j node [] h = refl
find_ip-unlink_node j node (r ∷ rs) h = ground (arith, find_ip-unlink_node j node rs)

unlink_node-Below : (n node : ℕ) (rs : List ArpReq) → Below n rs → Below n (unlink_node node rs)
unfolding unlink_node
unlink_node-Below n node [] b = tt
unlink_node-Below n node (r ∷ rs) b =
    ground (arith, unlink_node-Below r.node node rs b.1, Below-mono r.node n rs)

unlink_node-OnePerIp : (node : ℕ) (rs : List ArpReq) → OnePerIp rs → OnePerIp (unlink_node node rs)
unfolding unlink_node
unlink_node-OnePerIp node [] o = tt
unlink_node-OnePerIp node (r ∷ rs) o =
    ground (arith, unlink_node-OnePerIp node rs o.1, find_ip-unlink_node r.ip node rs o.0)

unlink_node-FewSent : (node : ℕ) (rs : List ArpReq) → FewSent rs → FewSent (unlink_node node rs)
unfolding unlink_node
unlink_node-FewSent node [] o = tt
unlink_node-FewSent node (r ∷ rs) o = ground (arith, unlink_node-FewSent node rs o.1)

-- A write to a node that keeps its place and address.
module _ (node : ℕ) (f : ArpReq → ArpReq) (same_node : (r : ArpReq) → (f r).node ≡ r.node)
    (same_ip : (r : ArpReq) → (f r).ip ≡ r.ip)
    (few : (r : ArpReq) → r.times_sent ≤ 5 → (f r).times_sent ≤ 5) where
  find_ip-on_node :
      (j : ℕ) (rs : List ArpReq) → find_ip j rs ≡ none → find_ip j (on_node node f rs) ≡ none
  unfolding find_ip on_node
  find_ip-on_node j [] h = refl
  find_ip-on_node j (r ∷ rs) h = ground (arith, same_ip r, find_ip-on_node j rs)

  on_node-Below : (n : ℕ) (rs : List ArpReq) → Below n rs → Below n (on_node node f rs)
  unfolding on_node
  on_node-Below n [] b = tt
  on_node-Below n (r ∷ rs) b = elim (Bool-cases (r.node == node)) [
    | inl e ↦ rw (e, on_node) (rw same_node b)
    | inr e ↦ rw (e, on_node) (b.0, on_node-Below r.node rs b.1)
  ]

  on_node-OnePerIp : (rs : List ArpReq) → OnePerIp rs → OnePerIp (on_node node f rs)
  unfolding on_node
  on_node-OnePerIp [] o = tt
  on_node-OnePerIp (r ∷ rs) o = elim (Bool-cases (r.node == node)) [
    | inl e ↦ rw (e, on_node) (rw same_ip o)
    | inr e ↦ rw (e, on_node) (find_ip-on_node r.ip rs o.0, on_node-OnePerIp rs o.1)
  ]

  on_node-FewSent : (rs : List ArpReq) → FewSent rs → FewSent (on_node node f rs)
  unfolding on_node
  on_node-FewSent [] o = tt
  on_node-FewSent (r ∷ rs) o = ground (arith, few r, on_node-FewSent rs o.1)

-- The operations.
pub init-Inv : Inv init
unfolding init
init-Inv = record { slots = refl; nodes = tt; one_per_ip = tt; few_sent = tt }

pub insert-Inv :
    (now : ℕ) (mac : List ℕ) (ip : ℕ) (c : ArpCache) → Inv c → Inv (insert now mac ip c).1
unfolding insert
insert-Inv now mac ip c v = record {
  slots = rw length-fill_slot v.slots;
  nodes = unlink_ip-Below c.next_node ip c.requests v.nodes;
  one_per_ip = unlink_ip-OnePerIp ip c.requests v.one_per_ip;
  few_sent = unlink_ip-FewSent ip c.requests v.few_sent;
}

pub destroy-Inv : (req : ArpReq) (c : ArpCache) → Inv c → Inv (destroy req c)
unfolding destroy
destroy-Inv req c v = record {
  slots = v.slots;
  nodes = unlink_node-Below c.next_node req.node c.requests v.nodes;
  one_per_ip = unlink_node-OnePerIp req.node c.requests v.one_per_ip;
  few_sent = unlink_node-FewSent req.node c.requests v.few_sent;
}

pub stamp-Inv :
    (now times : ℕ) (req : ArpReq) (c : ArpCache) → times ≤ 5 → Inv c → Inv (stamp now times req c)
unfolding stamp
stamp-Inv now times req c t v = record {
  slots = v.slots;
  nodes =
      on_node-Below req.node (stamped now times) (λ r. refl) (λ r. refl) (λ r h. t) c.next_node
        c.requests v.nodes;
  one_per_ip =
      on_node-OnePerIp req.node (stamped now times) (λ r. refl) (λ r. refl) (λ r h. t) c.requests
        v.one_per_ip;
  few_sent =
      on_node-FewSent req.node (stamped now times) (λ r. refl) (λ r. refl) (λ r h. t) c.requests
        v.few_sent;
}

pub expire-Inv : (t : ℕ) (c : ArpCache) → Inv c → Inv (expire t c)
unfolding expire
expire-Inv t c v = record {
  slots = omega (arith, length-map (expire_entry t) c.entries, v.slots);
  nodes = v.nodes;
  one_per_ip = v.one_per_ip;
  few_sent = v.few_sent;
}

-- Adding a packet leaves the rest of the request.
module _ (packet iface : List ℕ) (r : ArpReq) where
  pub node-add_packet : (add_packet packet iface r).node ≡ r.node
  node-add_packet = ground arith

  pub ip-add_packet : (add_packet packet iface r).ip ≡ r.ip
  ip-add_packet = ground arith

  pub times_sent-add_packet : (add_packet packet iface r).times_sent ≡ r.times_sent
  times_sent-add_packet = ground arith

pub queuereq-Inv :
    (ip : ℕ) (packet iface : List ℕ) (c : ArpCache) → Inv c → Inv (queuereq ip packet iface c).1
unfolding queuereq
queuereq-Inv ip packet iface c v = elim (Option-cases (find_ip ip c.requests)) [
  | inl e ↦
      rw (e, queuereq)
        (record {
          slots = v.slots;
          nodes = ground (arith, v.nodes);
          one_per_ip = (rw (ip-add_packet packet iface (new_req c.next_node ip)) e, v.one_per_ip);
          few_sent = (ground arith, v.few_sent);
        })
  | inr (r, e) ↦
      let push = add_packet packet iface in
      let times : (q : ArpReq) → q.times_sent ≤ 5 → (push q).times_sent ≤ 5 =
        λ q h. omega (arith, times_sent-add_packet packet iface q) in
      rw (e, queuereq)
        (record {
          slots = v.slots;
          nodes =
              on_node-Below r.node push (node-add_packet packet iface) (ip-add_packet packet iface)
                times c.next_node c.requests v.nodes;
          one_per_ip =
              on_node-OnePerIp r.node push (node-add_packet packet iface)
                (ip-add_packet packet iface) times c.requests v.one_per_ip;
          few_sent =
              on_node-FewSent r.node push (node-add_packet packet iface)
                (ip-add_packet packet iface) times c.requests v.few_sent;
        })
]
