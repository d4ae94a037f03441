-- ===== src/Buffered/Growth.antt =====
-- What arrives at the buffer during a write, and what a write of a batch makes of it.
use knx_telegram_store.Prelude.{
  ℕ, ◌+◌, ◌≤◌, true, List, [], ◌∷◌, ◌++◌, ◌≡◌, refl, ◌∙◌, inl, arith, if_ind, In, In-append, length,
  length-append, leb, ltb, ltb→lt, leb→le,
}
use knx_telegram_store.Exceptions.{Result}
use knx_telegram_store.Model.{StoredTelegram}
use knx_telegram_store.Buffered.Backend.{Buffered}
use knx_telegram_store.Buffered.Buffer.{
  store_sync, requeue, Arrival, stored, close_called, arrive, arrive_all,
}
use knx_telegram_store.Buffered.Flush.{first_arrivals, later_arrivals}

abbrev pub count_arrivals : List (List Arrival) → ℕ
count_arrivals [] = 0
count_arrivals (a ∷ rest) = length a + count_arrivals rest

pub first-later_arrivals :
    (a : List (List Arrival))
    → length (first_arrivals a) + count_arrivals (later_arrivals a) ≡ count_arrivals a
first-later_arrivals [] = omega arith
first-later_arrivals (a ∷ rest) = omega arith

-- With room in the buffer, arrivals only add to it.
pub record Grown {S : Type 0} (k : ℕ) (b c : Buffered S) : Type 0 where
  pub backing : c.backing ≡ b.backing
  pub limit : c.max_buffer_size ≡ b.max_buffer_size
  pub fits : length c.buffer ≤ length b.buffer + k
  pub kept : (u : StoredTelegram) → In u b.buffer → In u c.buffer

module _ {S : Type 0} where
  Grown-closing : (b : Buffered S) → Grown 1 b (record b { closing = true })
  Grown-closing b = record { backing = refl; limit = refl; fits = omega arith; kept = λ u i. i }

  Grown-store_sync :
      (t : StoredTelegram) (b : Buffered S)
      → length b.buffer + 1 ≤ b.max_buffer_size
      → Grown 1 b (store_sync t b).1
  unfolding store_sync
  Grown-store_sync t b room =
      let good = λ (r : Result (Unit {0}) × Buffered S). Grown 1 b r.1 in
      if_ind good b.closing
        (λ _. record { backing = refl; limit = refl; fits = omega arith; kept = λ u i. i })
        λ _.
          if_ind good (leb b.max_buffer_size (length b.buffer))
            (λ full. absurd (omega (arith, leb→le _ _ full)))
            (λ _. record {
              backing = refl;
              limit = refl;
              fits = omega (arith, length-append b.buffer (t ∷ []));
              kept = λ u i. (In-append u b.buffer (t ∷ [])).1 (inl i);
            })

  Grown-trans : {j k : ℕ} {a b c : Buffered S} → Grown j a b → Grown k b c → Grown (j + k) a c
  Grown-trans g h = record {
    backing = h.backing ∙ g.backing;
    limit = h.limit ∙ g.limit;
    fits = omega (arith, g.fits, h.fits);
    kept = λ u i. h.kept u (g.kept u i);
  }

  Grown-arrive :
      (a : Arrival) (b : Buffered S)
      → length b.buffer + 1 ≤ b.max_buffer_size
      → Grown 1 b (arrive b a)
  unfolding arrive
  Grown-arrive (stored t) b room = Grown-store_sync t b room
  Grown-arrive close_called b room = Grown-closing b

  pub Grown-arrive_all :
      (b : Buffered S) (rest : List Arrival)
      → length b.buffer + length rest ≤ b.max_buffer_size
      → Grown (length rest) b (arrive_all b rest)
  unfolding arrive_all
  Grown-arrive_all b [] room = record {
    backing = refl;
    limit = refl;
    fits = omega arith;
    kept = λ u i. i;
  }
  Grown-arrive_all b (a ∷ rest) room =
      let g = Grown-arrive a b (omega arith) in
      let h = Grown-arrive_all (arrive b a) rest (omega (arith, g.fits, g.limit)) in
      let gh = Grown-trans g h in
      record {
        backing = gh.backing;
        limit = gh.limit;
        fits = omega (arith, gh.fits);
        kept = gh.kept;
      }

  pub requeue-buffer :
      (ts : List StoredTelegram) (b : Buffered S)
      → length ts + length b.buffer ≤ b.max_buffer_size
      → (requeue ts b).buffer ≡ ts ++ b.buffer
  unfolding requeue
  requeue-buffer ts b room =
      let joined = ts ++ b.buffer in
      if_ind (λ (c : Buffered S). c.buffer ≡ joined) (ltb b.max_buffer_size (length joined))
        (λ over. absurd (omega (arith, ltb→lt _ _ over, length-append ts b.buffer))) (λ _. refl)

  pub requeue-backing :
      (ts : List StoredTelegram) (b : Buffered S) → (requeue ts b).backing ≡ b.backing
  unfolding requeue
  requeue-backing ts b =
      if_ind (λ (c : Buffered S). c.backing ≡ b.backing)
        (ltb b.max_buffer_size (length (ts ++ b.buffer))) (λ _. refl) (λ _. refl)
