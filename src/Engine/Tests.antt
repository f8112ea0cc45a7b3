-- ===== src/Engine/Tests.antt =====
-- Concrete runs of the theorems on the engine: 36 bytes in three packets, and a request at 44.1 kHz.
use r_compatible_driver_v.Base.{
  ◌+◌, ◌*◌, ◌/◌, inl, refl, ◌≤◌, ◌<◌, ◌≡◌, arith, Bytes, List, [], ◌∷◌, ◌++◌, All, length,
  replicate,
}
use r_compatible_driver_v.Engine.{fpr, max_pkt, micro_counts, feed_packets}
use r_compatible_driver_v.Engine.Capture.{stream, words, groups, feed_packets-groups}
use r_compatible_driver_v.Engine.Accordion.{total, request_bytes, micro_counts_lem, arm_out_within}

abbrev packets : List Bytes
packets = replicate 5 1 ∷ replicate 30 2 ∷ replicate 1 3 ∷ []

feed_packets-groups_example :
    ((feed_packets packets (record { phase = 0; sf = replicate 64 0; emitted = [] }, [])).0.emitted
      ≡ [] ++ groups [] (words (stream packets)))
    × (length (feed_packets packets (record { phase = 0; sf = replicate 64 0; emitted = [] }, [])).1
        < 4)
feed_packets-groups_example = feed_packets-groups packets (replicate 64 0) [] (omega arith)

micro_counts_lem_example :
    (total (micro_counts 16 44100 0).0 ≡ 16 * 44100 / 8000)
    × All
        (λ nf. (44100 / 8000 ≤ nf) × (nf ≤ 44100 / 8000 + 1) × (nf ≤ 12))
        (micro_counts 16 44100 0).0
micro_counts_lem_example = micro_counts_lem 44100 16 (inl refl) (omega arith)

arm_out_within_example :
    All (λ nf. nf ≤ 12) (micro_counts fpr 48000 0).0
    × (request_bytes (micro_counts fpr 48000 0).0 ≤ fpr * max_pkt)
arm_out_within_example = arm_out_within 48000 0
