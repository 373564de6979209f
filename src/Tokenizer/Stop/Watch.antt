-- ===== src/Tokenizer/Stop/Watch.antt =====
-- A stream of pieces under the matcher (crates/orion-tokenizer/src/lib.rs).
use orion_serve_rs.Prelude.{
  subst, ℕ, ◌≤◌, ◌≡◌, ◌≢◌, refl, sym, ap, ◌∙◌, ◌⊎◌, inl, inr, true, false, ◌||◌, Option, none, some,
  List, [], ◌∷◌, ◌++◌, arith, All, Bool-cases, Option-cases, append-nil, append_assoc,
}
use orion_serve_rs.Tokenizer.Text.{Text, byte_len, byte_len-append}
use orion_serve_rs.Tokenizer.Stop.{
  contains, find_in, longest, StopSequenceMatcher, new, is_empty, push,
}
use orion_serve_rs.Tokenizer.Stop.Occurs.{
  Occurs-append, Occurs-after, contains-Occurs, Occurs-contains,
}
use orion_serve_rs.Tokenizer.Stop.Detects.{
  IsFree, find_in-none, find_in-some, IsFree_seam, shorten_keeps,
}

abbrev pub join : List Text → Text
join [] = []
join (t ∷ ts) = t ++ join ts

abbrev pub go_on :
    Option (Option Text × StopSequenceMatcher)
    → (StopSequenceMatcher → Option (Option Text))
    → Option (Option Text)
go_on none rest = none
go_on (some (none, m)) rest = rest m
go_on (some (some s, m)) rest = some (some s)

-- Feeds pieces until a stop sequence is found; `none` outside is a panic.
unfoldable pub watch : StopSequenceMatcher → List Text → Option (Option Text)
unfolding push
watch m [] = some none
watch m (t ∷ ts) = go_on (push m t) (λ m'. watch m' ts)

-- `s` is one of the stop sequences.
abbrev pub IsListed : List Text → Text → Type 0
IsListed ss s = (before : List Text) × (after : List Text) × (ss ≡ before ++ s ∷ after)

-- What the matcher keeps of the text so far, in which no stop sequence stands.
record Watches (ss : List Text) (m : StopSequenceMatcher) (text : Text) : Type 0 where
  before : Text
  parted : text ≡ before ++ m.buffer
  same : m.sequences ≡ ss
  reach : m.max_len ≡ longest ss
  enough : (before ≡ []) ⊎ (longest ss ≤ byte_len m.buffer)
  free : IsFree ss text
  some_stop : is_empty ss ≡ false

-- What is found in a text, or that nothing is.
abbrev pub Verdict : List Text → Text → Option Text → Type 0
Verdict ss text none = IsFree ss text
Verdict ss text (some s) = IsListed ss s × (contains text s ≡ true)

Verdict-more :
    (ss : List Text) (text more s : Text)
    → IsListed ss s
    → contains text s ≡ true
    → Verdict ss (text ++ more) (some s)
Verdict-more ss text more s listed hit = (
  listed,
  Occurs-contains (text ++ more) s (Occurs-append s text more (contains-Occurs text s hit)),
)

-- One piece: it completes a stop sequence, or the matcher goes on.
Watched : List Text → Text → Option (Option Text × StopSequenceMatcher) → Type 0
Watched ss text o =
    ((s : Text) × (m : StopSequenceMatcher) × (o ≡ some (some s, m)) × Verdict ss text (some s))
    ⊎ ((m : StopSequenceMatcher) × (o ≡ some (none, m)) × Watches ss m text)

enough_after :
    (b p kept kept' t : Text) (n : ℕ)
    → kept ++ t ≡ p ++ kept'
    → (b ≡ []) ⊎ (n ≤ byte_len kept)
    → (p ≡ []) ⊎ (n ≤ byte_len kept')
    → (b ++ p ≡ []) ⊎ (n ≤ byte_len kept')
enough_after b p kept kept' t n e was (inr long) = inr long
enough_after b p kept kept' t n e (inl none_before) (inl all_kept) =
    inl (ap (λ x. x ++ p) none_before ∙ all_kept)
enough_after b p kept kept' t n e (inr long) (inl all_kept) = inr (
    omega (
      arith,
      long,
      ap byte_len e,
      ap (λ x. byte_len (x ++ kept')) all_kept,
      byte_len-append kept t,
    ))

push-Watched :
    (ss : List Text) (m : StopSequenceMatcher) (text t : Text)
    → Watches ss m text
    → Watched ss (text ++ t) (push m t)
unfolding push Watched
push-Watched ss m text t v = elim (Bool-cases (is_empty m.sequences || is_empty t)) [
  | inl idle ↦ inr (m, rw idle refl, still t idle)
  | inr busy ↦
      let (p, buffer, e, split, long) = shorten_keeps m.max_len (m.buffer ++ t) in
      let whole : text ++ t ≡ v.before ++ (m.buffer ++ t) =
        ap (λ x. x ++ t) v.parted ∙ append_assoc v.before m.buffer t in
      elim (Option-cases (find_in m.sequences (m.buffer ++ t))) [
        | inr (s, hit) ↦
            let (stands, listed) = find_in-some m.sequences (m.buffer ++ t) s hit in
            inl (
              s,
              record m { buffer = buffer },
              rw busy (rw hit (rw e refl)),
              (
                rw v.same at listed,
                Occurs-contains (text ++ t) s (
                    rw whole (
                      Occurs-after s v.before (m.buffer ++ t)
                        (contains-Occurs (m.buffer ++ t) s stands))),
              ),
            )
        | inl miss ↦ inr (
          record m { buffer = buffer },
          rw busy (rw miss (rw e refl)),
          record {
            before = v.before ++ p;
            parted = whole ∙ ap (λ x. v.before ++ x) split ∙ sym (append_assoc v.before p buffer);
            same = v.same;
            reach = v.reach;
            some_stop = v.some_stop;
            enough =
                enough_after v.before p m.buffer buffer t (longest ss) split v.enough
                  (subst (λ n. (p ≡ []) ⊎ (n ≤ byte_len buffer)) v.reach long);
            free = rw v.parted (
                IsFree_seam ss (longest ss) v.before m.buffer t (omega arith) v.enough
                  (rw v.parted at v.free)
                  (find_in-none ss (m.buffer ++ t)
                    (ap (λ x. find_in x (m.buffer ++ t)) (sym v.same) ∙ miss)));
          },
        )
      ]
]
  where
    still : (t : Text) → (is_empty m.sequences || is_empty t) ≡ true → Watches ss m (text ++ t)
    still [] idle = rw (append-nil text) v
    still (c ∷ t) idle =
        absurd (ground (arith, idle, ap (λ (x : List Text). is_empty x) v.same, v.some_stop))

watch-Verdict :
    (ss : List Text) (m : StopSequenceMatcher) (text : Text) (pieces : List Text)
    → Watches ss m text
    → (r : Option Text) × (watch m pieces ≡ some r) × Verdict ss (text ++ join pieces) r
unfolding watch Watched
watch-Verdict ss m text [] v = (none, refl, rw (append-nil text) v.free)
watch-Verdict ss m text (t ∷ ts) v = elim (push-Watched ss m text t v) [
  | inl (s, m', e, (listed, hit)) ↦ (
    some s,
    rw e refl,
    rw (sym (append_assoc text t (join ts))) (Verdict-more ss (text ++ t) (join ts) s listed hit),
  )
  | inr (m', e, v') ↦
      let (r, e', verdict) = watch-Verdict ss m' (text ++ t) ts v' in
      (r, rw e e', rw (append_assoc text t (join ts)) at verdict)
]

free_of_nothing : (ss : List Text) → All (λ s. s ≢ []) ss → IsFree ss []
unfolding contains
free_of_nothing [] h = tt
free_of_nothing ([] ∷ ss) h = absurd (h.0 refl)
free_of_nothing ((c ∷ s) ∷ ss) h = (refl, free_of_nothing ss h.1)

push_nothing : (m : StopSequenceMatcher) (t : Text) → m.sequences ≡ [] → push m t ≡ some (none, m)
unfolding push
push_nothing m t e =
    let none_listed : is_empty m.sequences ≡ true = ap (λ x. is_empty x) e in rw none_listed refl

watch_nothing :
    (pieces : List Text) (m : StopSequenceMatcher) → m.sequences ≡ [] → watch m pieces ≡ some none
unfolding watch push
watch_nothing [] m e = refl
watch_nothing (t ∷ ts) m e = rw (push_nothing m t e) (watch_nothing ts m e)

-- For stop sequences none of which is empty, a new matcher fed with pieces of text until it
-- reports never panics; where it reports a text, that is one of the stop sequences and stands in
-- the pieces put together, and where it reports none, no stop sequence stands in them, even across
-- the pieces.
pub watch-new :
    (ss : List Text) (pieces : List Text)
    → All (λ s. s ≢ []) ss
    → (r : Option Text) × (watch (new ss) pieces ≡ some r) × Verdict ss (join pieces) r
unfolding new
watch-new [] pieces h = (none, watch_nothing pieces (new []) refl, tt)
watch-new (s ∷ ss) pieces h = watch-Verdict (s ∷ ss) (new (s ∷ ss)) [] pieces (record {
  before = [];
  parted = refl;
  same = refl;
  reach = refl;
  enough = inl refl;
  free = free_of_nothing (s ∷ ss) h;
  some_stop = refl;
})
