-- ===== src/Socket/Start/Single.antt =====
-- How many processes may listen, whatever the order of their calls.
use nssh.Base.{ℕ, ◌≡◌, ◌≢◌, refl, sym, subst, ap, ◌∙◌, Bool-cases, inl, inr, ◌⊎◌, ◌==◌, ==_iff}
use nssh.Socket.Start.{
  File, absent, dead, named, bound, Stage, begun, found, stale, clear, binding, listening, failed,
}
use nssh.Socket.Start.{System, call, update, advance, Step, Reach, here, next, listen}
use nssh.Socket.Start.{calls, stat_fails, dial_fails, remove_fails, bind_fails, listen_fails}

-- A net.Dial fails only where the file is dead: it falls into no gap between bind(2) and listen(2). And no
-- listen(2) fails, which would leave a dead file.
abbrev pub IsCalm : {s t : System} → Step s t → Type 0
IsCalm (calls p s) = s.stage p ≡ found → (q : ℕ) → s.file ≢ named q
IsCalm (stat_fails p s e) = Unit
IsCalm (dial_fails p s e) = s.file ≡ dead
IsCalm (remove_fails p s e) = Unit
IsCalm (bind_fails p s e) = Unit
IsCalm (listen_fails p s e) = s.stage p ≢ binding

abbrev pub AllCalm : {s t : System} → Reach s t → Type 0
AllCalm (here s) = Unit
AllCalm (next st r) = IsCalm st × AllCalm r

-- Nobody has met a dead file, and whoever has bound or listens owns the file.
record Inv (file : File) (stage : ℕ → Stage) : Type 0 where
  alive : file ≢ dead
  fresh : (p : ℕ) → stage p ≢ stale
  seen : (p : ℕ) → stage p ≡ found → file ≢ absent
  namer : (p : ℕ) → stage p ≡ binding → file ≡ named p
  owner : (p : ℕ) → stage p ≡ listening → file ≡ bound p

update-cases :
    (stage : ℕ → Stage) (p : ℕ) (st : Stage) (q : ℕ) {x : Stage}
    → update stage p st q ≡ x
    → ((p ≡ q) × (st ≡ x)) ⊎ (stage q ≡ x)
update-cases stage p st q h = elim (Bool-cases (p == q)) [
  | inl e ↦ inl ((==_iff p q).0 e, rw e at h)
  | inr e ↦ inr (rw e at h)
]

-- One process moves on, and the file stays.
moves-Inv :
    (p : ℕ) (st : Stage) {file : File} {stage : ℕ → Stage}
    → Inv file stage
    → st ≢ stale
    → (st ≡ found → file ≢ absent)
    → (st ≡ binding → file ≡ named p)
    → (st ≡ listening → file ≡ bound p)
    → Inv file (update stage p st)
moves-Inv p st {file} {stage} i a b n c = record {
  alive = i.alive;
  fresh = λ q e. elim (update-cases stage p st q e) [ inl (x, y) ↦ a y | inr y ↦ i.fresh q y ];
  seen = λ q e. elim (update-cases stage p st q e) [ inl (x, y) ↦ b y | inr y ↦ i.seen q y ];
  namer = λ q e. elim (update-cases stage p st q e) [
    | inl (x, y) ↦ n y ∙ ap named x
    | inr y ↦ i.namer q y
  ];
  owner = λ q e. elim (update-cases stage p st q e) [
    | inl (x, y) ↦ c y ∙ ap bound x
    | inr y ↦ i.owner q y
  ];
}

-- One process moves on to where it owns nothing.
leaves-Inv :
    (p : ℕ) (st : Stage) {file : File} {stage : ℕ → Stage}
    → Inv file stage
    → st ≢ stale
    → (st ≡ found → file ≢ absent)
    → st ≢ binding
    → st ≢ listening
    → Inv file (update stage p st)
leaves-Inv p st i a b n c = moves-Inv p st i a b (λ h. absurd (n h)) (λ h. absurd (c h))

-- The first process to reach a free path takes it.
binds-Inv : (p : ℕ) {stage : ℕ → Stage} → Inv absent stage → Inv (named p) (update stage p binding)
binds-Inv p {stage} i = record {
  alive = λ e. cc;
  fresh = λ q e. elim (update-cases stage p binding q e) [ inl (x, y) ↦ cc | inr y ↦ i.fresh q y ];
  seen = λ q e f. cc;
  namer = λ q e. elim (update-cases stage p binding q e) [
    | inl (x, y) ↦ ap named x
    | inr y ↦ cc (i.namer q y)
  ];
  owner =
      λ q e. elim (update-cases stage p binding q e) [ inl (x, y) ↦ cc | inr y ↦ cc (i.owner q y) ];
}

-- It listens on the path that it has bound.
listens-Inv :
    (p : ℕ) {stage : ℕ → Stage} → Inv (named p) stage → Inv (bound p) (update stage p listening)
listens-Inv p {stage} i = record {
  alive = λ e. cc;
  fresh =
      λ q e. elim (update-cases stage p listening q e) [ inl (x, y) ↦ cc | inr y ↦ i.fresh q y ];
  seen = λ q e f. cc;
  namer = λ q e. elim (Bool-cases (p == q)) [
    | inl same ↦ cc (rw same at e)
    | inr other ↦ cc (i.namer q (rw other at e), other, (==_iff p p).1 refl)
  ];
  owner = λ q e. elim (update-cases stage p listening q e) [
    | inl (x, y) ↦ ap bound x
    | inr y ↦ cc (i.owner q y)
  ];
}

abbrev owner_of : File → ℕ
owner_of absent = 0
owner_of dead = 0
owner_of (named p) = p
owner_of (bound p) = p

named_owner : {p r : ℕ} → named r ≡ named p → r ≡ p
named_owner e = ap owner_of e

listen_named-Inv :
    (p r : ℕ) {stage : ℕ → Stage}
    → stage p ≡ binding
    → Inv (named r) stage
    → Inv (listen p (named r)) (update stage p listening)
unfolding listen
listen_named-Inv p r {stage} e i =
    let mine = named_owner (i.namer p e) in
    rw ((==_iff p r).1 (sym mine)) (
      subst (λ x. Inv (bound x) (update stage p listening)) (sym mine)
        (listens-Inv p (subst (λ x. Inv (named x) stage) mine i)))

call-Inv :
    (p : ℕ) (file : File) (stage : ℕ → Stage) (st : Stage)
    → stage p ≡ st
    → (st ≡ found → (q : ℕ) → file ≢ named q)
    → Inv file stage
    → Inv (call p file st).0 (update stage p (call p file st).1)
unfolding call
call-Inv p dead stage st e k i = absurd (i.alive refl)
call-Inv p absent stage begun e k i = leaves-Inv p clear i (λ h. cc) (λ h. cc) (λ h. cc) (λ h. cc)
call-Inv p (named r) stage begun e k i =
    leaves-Inv p found i (λ h. cc) (λ h j. cc) (λ h. cc) (λ h. cc)
call-Inv p (bound r) stage begun e k i =
    leaves-Inv p found i (λ h. cc) (λ h j. cc) (λ h. cc) (λ h. cc)
call-Inv p absent stage found e k i = absurd (i.seen p e refl)
call-Inv p (named r) stage found e k i = absurd (k refl r refl)
call-Inv p (bound r) stage found e k i =
    leaves-Inv p failed i (λ h. cc) (λ h. cc) (λ h. cc) (λ h. cc)
call-Inv p file stage stale e k i = absurd (i.fresh p e)
call-Inv p absent stage clear e k i = binds-Inv p i
call-Inv p (named r) stage clear e k i =
    leaves-Inv p failed i (λ h. cc) (λ h. cc) (λ h. cc) (λ h. cc)
call-Inv p (bound r) stage clear e k i =
    leaves-Inv p failed i (λ h. cc) (λ h. cc) (λ h. cc) (λ h. cc)
call-Inv p absent stage binding e k i = cc (i.namer p e)
call-Inv p (named r) stage binding e k i = listen_named-Inv p r e i
call-Inv p (bound r) stage binding e k i = cc (i.namer p e)
call-Inv p file stage listening e k i =
    moves-Inv p listening i (λ h. cc) (λ h. cc) (λ h. cc) (λ h. i.owner p e)
call-Inv p file stage failed e k i = leaves-Inv p failed i (λ h. cc) (λ h. cc) (λ h. cc) (λ h. cc)

Step-Inv : {s t : System} (st : Step s t) → IsCalm st → Inv s.file s.stage → Inv t.file t.stage
unfolding advance
Step-Inv (calls p s) k i = call-Inv p s.file s.stage (s.stage p) refl k i
Step-Inv (stat_fails p s e) k i = leaves-Inv p clear i (λ h. cc) (λ h. cc) (λ h. cc) (λ h. cc)
Step-Inv (dial_fails p s e) k i = absurd (i.alive k)
Step-Inv (remove_fails p s e) k i = absurd (i.fresh p e)
Step-Inv (bind_fails p s e) k i = leaves-Inv p failed i (λ h. cc) (λ h. cc) (λ h. cc) (λ h. cc)
Step-Inv (listen_fails p s e) k i = absurd (k e)

Reach-Inv : {s t : System} (r : Reach s t) → AllCalm r → Inv s.file s.stage → Inv t.file t.stage
Reach-Inv (here s) k i = i
Reach-Inv (next st r) k i = Reach-Inv r k.1 (Step-Inv st k.0 i)

-- however the calls of StartServer of any number of processes interleave, at most one of them
-- ends up listening, if all begin, no dead socket file lies there, net.Dial fails only for a dead
-- file and never falls between the bind(2) and the listen(2) of another process, and no listen(2)
-- fails.
pub Reach-IsSingle :
    {s t : System} (p q : ℕ)
    → s.file ≢ dead
    → ((r : ℕ) → s.stage r ≡ begun)
    → (reach : Reach s t) → AllCalm reach
    → p ≢ q
    → t.stage p ≡ listening
    → t.stage q ≢ listening
Reach-IsSingle {s} {t} p q alive start reach calm differ hp hq =
    let i = Reach-Inv reach calm (record {
      alive = alive;
      fresh = λ r e. cc (start r);
      seen = λ r e. cc (start r);
      namer = λ r e. cc (start r);
      owner = λ r e. cc (start r);
    }) in
    differ (cc (i.owner p hp, i.owner q hq))
