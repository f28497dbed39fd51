-- ===== src/Core/GtpPaths/Echoes.antt =====
-- The sequence numbers that cmd/core/gtp_path_manager.go keeps for its peers.
use eupf.Base.{
  ℕ, ◌+◌, ◌%◌, ◌^◌, ◌≡◌, ◌∙◌, refl, sym, subst, ap, ◌<◌, Bool, true, false, not, ◌&&◌, ◌||◌, none,
  some, List, [], ◌∷◌, arith, ◌==◌, if◌then◌else◌, String, string_eq, inl, inr, Bool-cases,
}
use eupf.Base.Outcome.{Outcome, ok, err, panic}
use eupf.Base.Table.{Table, lookup, insert, lookup-insert, lookup-insert_self}
use eupf.Base.Table.Total.{UniqueKeys, insert-UniqueKeys}
use eupf.Base.Table.Every.{every_entry, every_entry-perm}
use eupf.Base.MapOrder.{MapOrder, branch}
use eupf.Core.GtpPaths.{
  GtpPathManager, add_gtp_path, send_echo, Answers, next_sequence, echo_peers, GtpEvent, done, tick,
  gtp_tick, gtp_run,
}
use eupf.Core.GtpPaths.Responses.{answered, is_echoed, send_echo-answered}

-- The sequence number of a peer after one tick.
abbrev pub after_tick : Answers → String → ℕ → ℕ
after_tick calls peer s = if answered (send_echo (calls peer s)) then (s + 1) % 2 ^ 16 else s

lookup-next :
    (r : Outcome ℕ) (peer p : String) (s : ℕ) (peers : Table String ℕ)
    → lookup p (next_sequence r peer s peers)
      ≡ (if answered r && string_eq.beq peer p then some ((s + 1) % 2 ^ 16) else lookup p peers)
lookup-next (ok elapsed) peer p s peers =
    ground (arith, lookup-insert peer p ((s + 1) % 2 ^ 16) peers)
lookup-next (err e) peer p s peers = refl
lookup-next panic peer p s peers = refl

-- All entries for a peer hold this number; no entry is for it.
abbrev all_at : String → ℕ → Table String ℕ → Bool
all_at p s = every_entry (λ q. not (string_eq.beq p q.0) || q.1 == s)

abbrev none_at : String → Table String ℕ → Bool
none_at p = every_entry (λ q. not (string_eq.beq p q.0))

echo_peers-none :
    (calls : Answers) (p : String) (es peers : Table String ℕ)
    → none_at p es ≡ true
    → lookup p (echo_peers calls es peers) ≡ lookup p peers
unfolding echo_peers
echo_peers-none calls p [] peers h = refl
echo_peers-none calls p ((j, s) ∷ es) peers h =
    echo_peers-none calls p es (next_sequence (send_echo (calls j s)) j s peers) (ground (arith, h))
    ∙ ground (
      arith,
      lookup-next (send_echo (calls j s)) j p s peers,
      h,
      string_eq.beq_iff j p,
      string_eq.beq_iff p j,
    )

-- Every entry is visited with the number that it has when the tick begins.
lookup-echo_peers :
    (calls : Answers) (p : String) (s : ℕ) (es peers : Table String ℕ)
    → all_at p s es ≡ true
    → lookup p (echo_peers calls es peers) ≡ (
        if not (none_at p es) && answered (send_echo (calls p s))
        then some ((s + 1) % 2 ^ 16)
        else lookup p peers)
unfolding echo_peers
lookup-echo_peers calls p s [] peers h = refl
lookup-echo_peers calls p s ((j, n) ∷ es) peers h = elim (Bool-cases (string_eq.beq p j)) [
  | inl b ↦
      same (λ q. lookup-echo_peers calls p s es q (ground (arith, h)))
        (sym ((string_eq.beq_iff p j).0 b)) (ground (arith, h, b))
  | inr b ↦
      lookup-echo_peers calls p s es (next_sequence (send_echo (calls j n)) j n peers)
        (ground (arith, h))
      ∙ ground (
        arith,
        lookup-next (send_echo (calls j n)) j p n peers,
        b,
        string_eq.beq_iff j p,
        string_eq.beq_iff p j,
      )
]
  where
    same :
        ((q : Table String ℕ)
          → lookup p (echo_peers calls es q) ≡ (
              if not (none_at p es) && answered (send_echo (calls p s))
              then some ((s + 1) % 2 ^ 16)
              else lookup p q))
        → j ≡ p
        → n ≡ s
        → lookup p (echo_peers calls es (next_sequence (send_echo (calls j n)) j n peers)) ≡ (
            if not (none_at p ((j, n) ∷ es)) && answered (send_echo (calls p s))
            then some ((s + 1) % 2 ^ 16)
            else lookup p peers)
    same rest e f =
        rw (e, f)
          (rest (next_sequence (send_echo (calls p s)) p s peers)
            ∙ ground
                (arith, lookup-next (send_echo (calls p s)) p p s peers, string_eq.beq_iff p p))

none_at-missing : (p : String) (m : Table String ℕ) → lookup p m ≡ none → none_at p m ≡ true
unfolding lookup
none_at-missing p [] h = refl
none_at-missing p ((j, n) ∷ m) h =
    ground (arith, h, none_at-missing p m, string_eq.beq_iff j p, string_eq.beq_iff p j)

all_at-none_at :
    (p : String) (s : ℕ) (m : Table String ℕ) → none_at p m ≡ true → all_at p s m ≡ true
all_at-none_at p s [] h = refl
all_at-none_at p s ((j, n) ∷ m) h = ground (arith, h, all_at-none_at p s m)

all_at-lookup :
    (p : String) (s : ℕ) (m : Table String ℕ)
    → UniqueKeys m
    → lookup p m ≡ some s
    → (all_at p s m ≡ true) × (none_at p m ≡ false)
unfolding lookup
all_at-lookup p s [] u h = ground (arith, h)
all_at-lookup p s ((j, n) ∷ m) u h = elim (Bool-cases (string_eq.beq j p)) [
  | inl b ↦
      let e = (string_eq.beq_iff j p).0 b in
      let t = none_at-missing p m (subst (λ x. lookup x m ≡ none) e u.0) in
      (
        ground (arith, h, b, all_at-none_at p s m t),
        ground (arith, b, string_eq.beq_iff j p, string_eq.beq_iff p j),
      )
  | inr b ↦
      let r = all_at-lookup p s m u.1 (ground (arith, h, b)) in
      (ground (arith, r.0, b, string_eq.beq_iff j p, string_eq.beq_iff p j), ground (arith, r.1))
]

echo_peers-UniqueKeys :
    (calls : Answers) (es peers : Table String ℕ)
    → UniqueKeys peers
    → UniqueKeys (echo_peers calls es peers)
unfolding echo_peers
echo_peers-UniqueKeys calls [] peers u = u
echo_peers-UniqueKeys calls ((j, n) ∷ es) peers u =
    echo_peers-UniqueKeys calls es _ (next-UniqueKeys (send_echo (calls j n)))
  where
    next-UniqueKeys : (r : Outcome ℕ) → UniqueKeys (next_sequence r j n peers)
    next-UniqueKeys (ok elapsed) = insert-UniqueKeys j _ peers u
    next-UniqueKeys (err e) = u
    next-UniqueKeys panic = u

-- The echo requests to a peer that an echo response answers, sent with one number after another from `s` on.
abbrev pub acknowledged : List GtpEvent → String → ℕ → ℕ
acknowledged [] p s = 0
acknowledged (done ∷ events) p s = 0
acknowledged (tick calls ∷ events) p s =
    let go_on = acknowledged events p ((s + 1) % 2 ^ 16) in
    let stay = acknowledged events p s in if is_echoed (calls p s) then go_on + 1 else stay

module _ (order : MapOrder) where
  lookup-gtp_tick :
      (calls : Answers) (p : String) (s : ℕ) (m : GtpPathManager)
      → UniqueKeys m.peers
      → lookup p m.peers ≡ some s
      → lookup p (gtp_tick order calls m).peers ≡ some (after_tick calls p s)
  unfolding gtp_tick
  lookup-gtp_tick calls p s m u h =
      let visited = order.visit [] String ℕ m.peers in
      let perm = order.visit-perm [] String ℕ m.peers in
      let facts = all_at-lookup p s m.peers u h in
      lookup-echo_peers calls p s visited m.peers
        (every_entry-perm (λ q. not (string_eq.beq p q.0) || q.1 == s) perm ∙ facts.0)
      ∙ rw (every_entry-perm (λ q. not (string_eq.beq p q.0)) perm, facts.1) (ground (arith, h))

  gtp_tick-UniqueKeys :
      (calls : Answers) (m : GtpPathManager)
      → UniqueKeys m.peers
      → UniqueKeys (gtp_tick order calls m).peers
  unfolding gtp_tick
  gtp_tick-UniqueKeys calls m u =
      echo_peers-UniqueKeys calls (order.visit [] String ℕ m.peers) m.peers u

sequence-gtp_run :
    (order : MapOrder) (events : List GtpEvent) (p : String) (s : ℕ) (m : GtpPathManager)
    → UniqueKeys m.peers
    → s < 2 ^ 16
    → lookup p m.peers ≡ some s
    → lookup p (gtp_run order events m).peers ≡ some ((s + acknowledged events p s) % 2 ^ 16)
unfolding gtp_run
sequence-gtp_run order [] p s m u b h = ground (arith, h, b)
sequence-gtp_run order (done ∷ events) p s m u b h = ground (arith, h, b)
sequence-gtp_run order (tick calls ∷ events) p s m u b h =
    let m1 = gtp_tick (branch 0 order) calls m in
    let t = lookup-gtp_tick (branch 0 order) calls p s m u h in
    let v = gtp_tick-UniqueKeys (branch 0 order) calls m u in
    let same = send_echo-answered (calls p s) in
    elim (Bool-cases (is_echoed (calls p s))) [
      | inl e ↦
          sequence-gtp_run (branch 1 order) events p ((s + 1) % 2 ^ 16) m1 v (omega arith)
            (ground (arith, t, e, same))
          ∙ rw e (ap some (omega arith))
      | inr e ↦
          sequence-gtp_run (branch 1 order) events p s m1 v b (ground (arith, t, e, same))
          ∙ rw e refl
    ]

-- A peer that AddGtpPath adds has, after any ticks and until the context is done, a sequence
-- number that is the number of its echo requests that were answered by an echo response with
-- TEID 0, modulo 2^16: errors of sendEcho leave it, other peers do not change it, and the order
-- in which Run ranges over the peers does not matter.
pub sequence-add_gtp_path :
    (order : MapOrder) (events : List GtpEvent) (p : String) (m : GtpPathManager)
    → UniqueKeys m.peers
    → lookup p (gtp_run order events (add_gtp_path p m)).peers
      ≡ some (acknowledged events p 0 % 2 ^ 16)
unfolding add_gtp_path
sequence-add_gtp_path order events p m u =
    sequence-gtp_run order events p 0 (record m { peers = insert p 0 m.peers })
      (insert-UniqueKeys p 0 m.peers u) (omega arith) (lookup-insert_self p 0 m.peers)
    ∙ ap some (omega arith)
