-- ===== src/Keeper/Barrier/Order.antt =====
-- The order of starts that the barrier gives.
use ucl_tools.Base.{
  ℕ, ◌+◌, ◌≤◌, ◌≡◌, refl, sym, ap, ◌∙◌, Bool, true, false, Option, none, some, List, [], ◌∷◌, ◌++◌,
  map, arith, length, All,
}
use ucl_tools.Keeper.Barrier.{Link, fresh, Task, link, count, Reach, start, next}
use ucl_tools.Keeper.Barrier.Links.{one_if, LinkInv, fresh-LinkInv, LinkStep-LinkInv, LinkStep-seen}

-- The nodes whose count has reached the manager.
abbrev pub seen : List Link → ℕ
seen [] = 0
seen (l ∷ ls) = one_if l.resp + seen ls

pub record Inv (s : Task) : Type 0 where
  pub each : All (LinkInv s.cast) s.links
  pub size : length s.links ≡ s.num_worker
  pub all_seen : s.connected + s.tokens ≡ seen s.links
  pub cast_full : s.cast ≡ true → s.num_worker ≤ s.connected

seen-middle :
    (before after : List Link) (l : Link)
    → seen (before ++ l ∷ after) ≡ one_if l.resp + seen (before ++ after)
seen-middle [] after l = refl
seen-middle (k ∷ before) after l = omega (arith, seen-middle before after l)

length-middle :
    (before after : List Link) (l k : Link)
    → length (before ++ l ∷ after) ≡ length (before ++ k ∷ after)
length-middle [] after l k = refl
length-middle (j ∷ before) after l k = omega (arith, length-middle before after l k)

module _ (P : Link → Type 0) where
  All-middle :
      (before after : List Link) (l k : Link)
      → (P l → P k)
      → All P (before ++ l ∷ after)
      → All P (before ++ k ∷ after)
  All-middle [] after l k f (p, h) = (f p, h)
  All-middle (j ∷ before) after l k f (p, h) = (p, All-middle before after l k f h)

  All-at : (before after : List Link) (l : Link) → All P (before ++ l ∷ after) → P l
  All-at [] after l (p, h) = p
  All-at (j ∷ before) after l (p, h) = All-at before after l h

start-each : (waits : List Bool) → All (LinkInv false) (map fresh waits)
start-each [] = tt
start-each (w ∷ waits) = (fresh-LinkInv w, start-each waits)

start-size : (waits : List Bool) → length (map fresh waits) ≡ length waits
start-size [] = refl
start-size (w ∷ waits) = omega (arith, start-size waits)

start-seen : (waits : List Bool) → seen (map fresh waits) ≡ 0
start-seen [] = refl
start-seen (w ∷ waits) = omega (arith, start-seen waits)

-- The manager may cast its message at any later time too.
cast_on : (cast : Bool) (ls : List Link) → All (LinkInv false) ls → All (LinkInv cast) ls
cast_on cast [] h = tt
cast_on cast (l ∷ ls) (i, h) = (ground arith, cast_on cast ls h)

pub Reach-Inv : {waits : List Bool} {s : Task} → Reach waits s → Inv s
Reach-Inv {waits} start = record {
  each = start-each waits;
  size = start-size waits;
  all_seen = omega (arith, start-seen waits);
  cast_full = λ h. cc;
}
Reach-Inv (next {s} r (link before after l {l'} {n} e st)) =
    let i = Reach-Inv r in
    let li : LinkInv s.cast l = All-at (LinkInv s.cast) before after l (rw e at i.each) in
    record {
      each =
          All-middle (LinkInv s.cast) before after l l' (λ h. LinkStep-LinkInv h st)
            (rw e at i.each);
      size = length-middle before after l' l ∙ ap length (sym e) ∙ i.size;
      all_seen = omega (
        arith,
        i.all_seen,
        ap seen e,
        seen-middle before after l,
        seen-middle before after l',
        LinkStep-seen li st,
      );
      cast_full = i.cast_full;
    }
Reach-Inv (next {s} r (count t e f)) =
    let i = Reach-Inv r in
    record {
      each = cast_on _ s.links (rw f at i.each);
      size = i.size;
      all_seen = omega (arith, i.all_seen);
      cast_full = λ h. ground arith;
    }

-- What a node has done that the manager has seen.
abbrev pub Ready : Link → Type 0
Ready l = (one_if l.sent ≡ 1) × (l.waits ≡ false → l.started ≡ true)

one_if-le {ℓ} : {A : Type ℓ} (o : Option A) → one_if o ≤ 1
one_if-le none = omega arith
one_if-le (some a) = omega arith

seen-le-length : (ls : List Link) → seen ls ≤ length ls
seen-le-length [] = omega arith
seen-le-length (l ∷ ls) = omega (arith, one_if-le l.resp, seen-le-length ls)

full-Ready :
    (cast : Bool) (ls : List Link) → All (LinkInv cast) ls → length ls ≤ seen ls → All Ready ls
full-Ready cast [] h full = tt
full-Ready cast (l ∷ ls) (i, h) full =
    let counts : one_if l.sent ≡ 1 =
      omega (arith, i.flow, one_if-le l.resp, one_if-le l.sent, seen-le-length ls) in
    ((counts, λ w. i.early w counts), full-Ready cast ls h (omega (arith, one_if-le l.resp)))

-- However the nodes, the connections and the manager interleave: once a process that waits for the
-- others has been started, every node of the task has sent its count, and every process that does not
-- wait has been started.
pub waiting_starts_last :
    {waits : List Bool} {s : Task} (before after : List Link) (l : Link)
    → Reach waits s
    → s.links ≡ before ++ l ∷ after
    → l.waits ≡ true
    → l.started ≡ true
    → All Ready s.links
waiting_starts_last {s} before after l r e w st =
    let i = Reach-Inv r in
    let li : LinkInv s.cast l = All-at (LinkInv s.cast) before after l (rw e at i.each) in
    full-Ready s.cast s.links i.each
      (omega (arith, i.size, i.all_seen, i.cast_full (li.pass_cast (li.late w st))))
