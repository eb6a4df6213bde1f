-- ===== src/IoManager/Refine.antt =====
-- The methods of IOManager (Sylar/iomanager.cc) on the view: one event is entered or taken away,
-- epoll is told so, and nothing else changes.
use my_sylar_server.Base.{
  ℕ, ◌+◌, ◌-◌, ◌*◌, ◌/◌, ◌%◌, ◌^◌, ◌≤◌, ◌≡◌, ◌≢◌, refl, sym, ap, ◌∙◌, Bool, true, false, some, List,
  ◌++◌, if◌then◌else◌, ◌==◌, ltb, length, get_elem?, set, replicate, arith, inl, inr, take_all,
  length-append, length-set, Bool-cases, ==_iff, ℕ_discrete,
}
use Prim.Native.Nat.{bit_or}
use my_sylar_server.IoManager.{Op, after, Epoll, IoManager, epollet, context_resize, grow}
use my_sylar_server.IoManager.View.{
  Waiting, View, blank, mask, concrete, concretes, total, wanted, op_from, Represents,
  get_elem?-concretes-some, length-concretes, set-concretes, concretes-append, fresh_from-concretes,
  total-append, total_blank, get_elem?-set_self, get_elem?-set_ne, wanted_at-blank,
}

-- The context grows to one and a half of the descriptor, as contextResize of addEvent asks.
abbrev pub grown : ℕ → List View → List View
grown fd vs = if ltb fd (length vs) then vs else vs ++ replicate (fd * 3 / 2 - length vs) blank

module _ {K : Type 0} (epoll : Epoll K) where
  open epoll use {ctl, interest, ctl_done, ctl_failed}

  pub resize-Represents :
      {vs : List View} {m : IoManager K} (n : ℕ)
      → Represents epoll vs m
      → length vs ≤ n
      → Represents epoll (vs ++ replicate (n - length vs) blank) (context_resize n m)
  unfolding context_resize
  resize-Represents {vs} {m} n r h = record {
    contexts_are =
        rw
          (
            r.contexts_are,
            length-concretes 0 vs,
            take_all n (concretes 0 vs) (omega (arith, length-concretes 0 vs)),
            fresh_from-concretes (length vs) (n - length vs),
            concretes-append 0 vs (replicate (n - length vs) blank),
          )
          (let e : 0 + length vs ≡ length vs = omega arith in rw e);
    registered = λ i other. r.registered i other ∙ sym (wanted_at-blank vs (n - length vs) i);
    counted =
        rw (total-append vs (replicate (n - length vs) blank), total_blank (n - length vs))
          (omega (arith, r.counted));
    enough = omega (arith, r.enough, length-append vs (replicate (n - length vs) blank));
  }

  pub grow-Represents :
      {vs : List View} {m : IoManager K} (fd : ℕ)
      → Represents epoll vs m
      → Represents epoll (grown fd vs) (grow fd m)
  unfolding grow
  grow-Represents {vs} {m} fd r =
      let same : length m.contexts ≡ length vs = ap length r.contexts_are ∙ length-concretes 0 vs in
      let test : ltb fd (length m.contexts) ≡ ltb fd (length vs) = ap (ltb fd) same in
      elim (Bool-cases (ltb fd (length vs))) [
        | inl inside ↦ rw (test, inside) r
        | inr outside ↦
            rw (test, outside) (resize-Represents (fd * 3 / 2) r (ground (arith, r.enough)))
      ]

  -- The call of epoll_ctl that a change of view asks for.
  abbrev pub call : ℕ → View → View → IoManager K → Bool × K
  call fd v v' m = ctl (op_from v v') fd (bit_or epollet (mask v')) m.kernel

  module _ {vs : List View} {m : IoManager K} (r : Represents epoll vs m) (fd : ℕ) (v : View)
      (here : get_elem? vs fd ≡ some v) (other : fd ≢ m.tickle_fd) where
    pub context_at : get_elem? m.contexts fd ≡ some (concrete fd v)
    context_at =
        rw r.contexts_are
          (get_elem?-concretes-some 0 vs fd v here ∙ (let e : 0 + fd ≡ fd = omega arith in rw e))

    pub refused :
        (op : Op) (events : ℕ)
        → (ctl op fd events m.kernel).0 ≡ false
        → Represents epoll vs (record m { kernel = (ctl op fd events m.kernel).1 })
    refused op events failed = record {
      contexts_are = r.contexts_are;
      registered = λ i o. ctl_failed op fd events m.kernel failed i ∙ r.registered i o;
      counted = r.counted;
      enough = r.enough;
    }

    pub changed :
        (v' : View) (op : Op) (events : ℕ)
        → after op events ≡ wanted v'
        → (ctl op fd events m.kernel).0 ≡ true
        → (p : ℕ) (out : List Waiting) → p ≡ total (set vs fd v') % 2 ^ 64
        → Represents epoll (set vs fd v') (record m {
          kernel = (ctl op fd events m.kernel).1;
          contexts = set m.contexts fd (concrete fd v');
          pending_event_count = p;
          scheduled = out;
        })
    changed v' op events means done p out counted = record {
      contexts_are =
          rw r.contexts_are
            (let e : 0 + fd ≡ fd = omega arith in rw e at (set-concretes 0 vs fd v'));
      registered = λ i o. ctl_done op fd events m.kernel done i ∙ elim (ℕ_discrete i fd) [
        | yes e ↦ rw (e, (==_iff fd fd).1 refl, get_elem?-set_self vs fd v' here) means
        | no ne ↦ elim (Bool-cases (i == fd)) [
          | inl e ↦ absurd (ne ((==_iff i fd).0 e))
          | inr d ↦ rw (d, get_elem?-set_ne vs fd i v' ne) (r.registered i o)
        ]
      ];
      counted = counted;
      enough = omega (arith, r.enough, length-set vs fd v');
    }
