-- ===== src/LoadBalance/Boosted.antt =====
-- pkg/extensions/rt_load_balance/rt_load_balance.go: which candidate the handler prefers.
use mathlib.Core.List.{Memᴰ}
use mathlib.Core.List.Memᴰ
use godiam.Prelude.{
  ℕ, suc, ◌%◌, ◌^◌, ◌≡◌, refl, sym, ap, subst, ◌∙◌, inl, inr, Bool, true, false, ◌&&◌, List, [],
  ◌∷◌, ◌++◌, Option, none, some, ltb, ◌==◌, arith, if◌then◌else◌, All, Bool-cases,
}
use godiam.Prelude.Ints.{ℤ, pos, ltz, eqz, addz, eqz_sound, eqz_refl}
use godiam.Prelude.Sorting.{All_mem, true_ne_false}
use godiam.Routing.{Name, Route}
use godiam.LoadBalance.Least.{
  Found, max_score-All, max_score-mem, min_pending-All, min_pending-Found,
}
use godiam.LoadBalance.{
  LivePeer, pending_table, pending_of, max_score, min_pending, boost_least, fewer, handle_outgoing,
}

-- Of the candidates with the score `top`, by the table `m`.
module _ (m : List (Name × ℕ)) (top : ℤ) where
  abbrev of_top : Route → Bool
  of_top c = eqz c.score top

  abbrev pending : Route → ℕ
  pending c = pending_of m c.peer_identity

  -- The list is the same but for one candidate, whose score is one higher.
  abbrev Split : List Route → ℕ → Option (List Route) → Type 0
  Split l k r =
      (a : List Route) × (x : Route) × (b : List Route) × (l ≡ a ++ x ∷ b)
      × (r ≡ some (a ++ record x { score = addz x.score (pos 1) } ∷ b))
      × ((of_top x && (pending x == k)) ≡ true)

  boost_least-Split :
      (k : ℕ) (l : List Route) → Found m top l k → Split l k (boost_least m top (some k) l)
  unfolding boost_least
  boost_least-Split k [] (x, at, is) = absurd (Memᴰ.not-nil at)
  boost_least-Split k (c ∷ l) (x, at, is) =
      let raised : Route = record c { score = addz c.score (pos 1) } in
      elim (Bool-cases (of_top c && (pending c == k))) [
        | inl here ↦ (
          [],
          c,
          l,
          refl,
          ap
              (λ b.
                if b
                then some (raised ∷ l)
                else elim (boost_least m top (some k) l) as (λ _. Option (List Route)) [
                  | none ↦ none
                  | some l' ↦ some (c ∷ l')
                ])
              here,
          here,
        )
        | inr other ↦ elim (Memᴰ.cases_cons at) [
          | inl e ↦
              absurd (true_ne_false (sym is ∙ ap (λ y. of_top y && (pending y == k)) e ∙ other))
          | inr later ↦
              let (a, y, b, parts, result, chosen) = boost_least-Split k l (x, later, is) in
              (
                c ∷ a,
                y,
                b,
                ap (◌∷◌ c) parts,
                ap
                      (λ b.
                        if b
                        then some (raised ∷ l)
                        else elim (boost_least m top (some k) l) as (λ _. Option (List Route)) [
                          | none ↦ none
                          | some l' ↦ some (c ∷ l')
                        ])
                      other
                    ∙ ap
                        (λ r. elim r as (λ _. Option (List Route)) [
                          | none ↦ none
                          | some l' ↦ some (c ∷ l')
                        ])
                        result,
                chosen,
              )
        ]
      ]

top_exists :
    (c : Route) (l : List Route)
    → (y : Route) × Memᴰ y (c ∷ l) × (eqz y.score (max_score c.score l) ≡ true)
top_exists c l = elim (max_score-mem c.score l) [
  | inl e ↦ (c, Memᴰ.head refl, ap (eqz c.score) e ∙ eqz_refl c.score)
  | inr (x, at, e) ↦ (x, Memᴰ.tail at, ap (eqz x.score) (sym e) ∙ eqz_refl x.score)
]

-- There is a least number of pending requests, and a candidate has it.
least_exists :
    (m : List (Name × ℕ)) (c : Route) (l : List Route)
    → (k : ℕ) × (min_pending m (max_score c.score l) none (c ∷ l) ≡ some k)
      × Found m (max_score c.score l) (c ∷ l) k
least_exists m c l =
    let top = max_score c.score l in
    let r = min_pending m top none (c ∷ l) in
    elim (min_pending-Found m top none (c ∷ l)) [
      | inr found ↦ found
      | inl e ↦
          let (y, at, tops) = top_exists c l in
          let none_fewer =
            All_mem (λ x. (eqz x.score top && fewer r (pending_of m x.peer_identity)) ≡ false)
              (c ∷ l) (min_pending-All m top none (c ∷ l)) at in
          absurd (
            true_ne_false (
              sym (
                ap (λ b. b && fewer r (pending_of m y.peer_identity)) tops
                ∙ ap (λ o. fewer o (pending_of m y.peer_identity)) e)
              ∙ none_fewer))
    ]

-- One candidate's score is one higher and all else is as it was. No candidate's score was above
-- this one's, and none with the same score had fewer requests.
abbrev pub Preferred : List (Name × ℕ) → List Route → List Route → Type 0
Preferred m l l' =
    (a : List Route) × (x : Route) × (b : List Route) × (l ≡ a ++ x ∷ b)
    × (l' ≡ a ++ record x { score = addz x.score (pos 1) } ∷ b)
    × All (λ y. ltz x.score y.score ≡ false) l
    × All
        (λ y.
          (eqz y.score x.score && ltb (pending_of m y.peer_identity) (pending_of m x.peer_identity))
          ≡ false)
        l

-- With two candidates or more, the handler counts a decision, raises the score of one candidate by
-- one and leaves all else as it was. That candidate's score was the highest, and of the candidates
-- with this score none has fewer pending requests by the table of the live peers.
pub handle_outgoing-Preferred :
    (peers : List LivePeer) (n : ℕ) (c d : Route) (l : List Route)
    → ((handle_outgoing peers n (c ∷ d ∷ l)).0 ≡ suc n % 2 ^ 64)
      × Preferred (pending_table peers []) (c ∷ d ∷ l) (handle_outgoing peers n (c ∷ d ∷ l)).1
unfolding handle_outgoing
handle_outgoing-Preferred peers n c d l =
    let m = pending_table peers [] in
    let all = c ∷ d ∷ l in
    let top = max_score c.score (d ∷ l) in
    let (k, e, found) = least_exists m c (d ∷ l) in
    let (a, x, b, parts, result, chosen) = boost_least-Split m top k all found in
    let tops : x.score ≡ top = eqz_sound x.score top (ground arith) in
    let least : pending_of m x.peer_identity ≡ k = ground arith in
    let raised : Route = record x { score = addz x.score (pos 1) } in
    let boosted : boost_least m top (min_pending m top none all) all ≡ some (a ++ raised ∷ b) =
      ap (λ o. boost_least m top o all) e ∙ result in
    let out : handle_outgoing peers n all ≡ (suc n % 2 ^ 64, a ++ raised ∷ b) =
      ap (λ o. elim o as (λ _. ℕ × List Route) [ none ↦ (n, all) | some l' ↦ (suc n % 2 ^ 64, l') ])
        boosted in
    let fewest =
      subst
        (λ o. All (λ y. (eqz y.score top && fewer o (pending_of m y.peer_identity)) ≡ false) all) e
        (min_pending-All m top none all) in
    (
      ap (λ r. r.0) out,
      (
        a,
        x,
        b,
        parts,
        ap (λ r. r.1) out,
        subst (λ t. All (λ y. ltz t y.score ≡ false) all) (sym tops)
            (max_score-All c.score (d ∷ l)),
        subst
            (λ t.
              All
                (λ y.
                  (eqz y.score t
                    && ltb (pending_of m y.peer_identity) (pending_of m x.peer_identity))
                  ≡ false)
                all)
            (sym tops)
            (subst
              (λ j.
                All (λ y. (eqz y.score top && ltb (pending_of m y.peer_identity) j) ≡ false) all)
              (sym least) fewest),
      ),
    )
