-- ===== src/Afxdp/Ring/Peer.antt =====
-- The kernel's side of a ring: it takes from the front of one, and puts behind what is on the other.
use polaris_trade.Base.{ℕ, ◌≤◌, ◌<◌, ◌≡◌, ◌∙◌, refl, sym, ap, List, [], ◌∷◌, ◌++◌, arith, length}
use polaris_trade.Afxdp.Ring.{add32, Producer, Consumer, size, entry, write, read_entries}
use polaris_trade.Afxdp.Ring.Contents.{pending, contents, read_entries-write, read_entries-ext}
use polaris_trade.Afxdp.Ring.Refine.{IsProducer, IsConsumer, length-contents, publish, release}

module _ {A : Type 0} where
  tail : List A → List A
  tail [] = []
  tail (x ∷ xs) = xs

  pub peer_release :
      (p : Producer A) (x : A) (rest : List A)
      → IsProducer p
      → contents p.ring ≡ x ∷ rest
      → let ring = record p.ring { consumer = add32 p.ring.consumer 1 } in
        IsProducer (record p { ring = ring }) × (contents ring ≡ rest)
  unfolding tail read_entries
  peer_release p x rest v e =
      let some_left : 1 ≤ pending p.ring = omega (arith, length-contents p.ring, ap length e) in
      let out =
        release (record { ring = p.ring; cons = p.ring.consumer }) 1
          (record { shared = v.shared; released = refl }) some_left in
      (record { shared = out.1.shared; published = v.published }, ap tail (sym out.0 ∙ e))

  pub peer_publish :
      (c : Consumer A) (x : A)
      → IsConsumer c
      → length (contents c.ring) < size c.ring
      → let ring = record c.ring {
        producer = add32 c.ring.producer 1;
        desc = write c.ring.desc (entry c.ring c.ring.producer) x;
      } in
        IsConsumer (record c { ring = ring }) × (contents ring ≡ contents c.ring ++ (x ∷ []))
  unfolding contents
  peer_publish c x v lt =
      let few : pending c.ring < size c.ring = omega (arith, length-contents c.ring) in
      let at : add32 c.ring.consumer (pending c.ring) ≡ c.ring.producer =
        omega (arith, v.shared.producer_word, v.shared.consumer_word) in
      let out =
        publish (record { ring = c.ring; prod = c.ring.producer })
          (write c.ring.desc (entry c.ring c.ring.producer) x) 1
          (record { shared = v.shared; published = refl }) (omega arith) in
      (
        record { shared = out.1.shared; released = v.released },
        out.0
            ∙ rw at at (
                read_entries-write c.ring c.ring.consumer (pending c.ring) c.ring.desc x
                  v.shared.divides few),
      )

  pub peer_flags :
      (p : Producer A) (flags : ℕ)
      → IsProducer p
      → let ring = record p.ring { flags = flags } in
        IsProducer (record p { ring = ring }) × (contents ring ≡ contents p.ring)
  unfolding contents
  peer_flags p flags v = (
    record {
      shared = record {
        divides = v.shared.divides;
        larger = v.shared.larger;
        producer_word = v.shared.producer_word;
        consumer_word = v.shared.consumer_word;
        fits = v.shared.fits;
      };
      published = v.published;
    },
    read_entries-ext (record p.ring { flags = flags }) p.ring p.ring.consumer p.ring.consumer 0 0
        (pending p.ring) (λ j lt. refl),
  )
