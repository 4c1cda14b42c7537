-- ===== src/Fat/Read/File.antt =====
-- What `rwFATTask` reads of a file: the bytes of the file from the offset on, and the bytes behind the
-- end of the file from an offset behind it on.
use homemade_os.Base.{
  ℕ, ◌+◌, ◌-◌, ◌*◌, ◌%◌, ◌^◌, ◌≤◌, ◌<◌, ◌≡◌, refl, sym, ap, ap₂, ◌∙◌, arith, min, max, some, List,
  [], length, take, drop, take-take, drop-take,
}
use homemade_os.Fat.{Partition, get_cluster_size}
use homemade_os.Fat.Chain.{IsChain}
use homemade_os.Fat.Read.{Disk, read_loop, read_by_fat, read_file_size, read_file}
use homemade_os.Fat.Read.Content.{IsContent, left_to_read, read_loop-content}

module _ (fuel c : ℕ) (disk : Disk) (dp : Partition) (xs content : List ℕ)
    (pos : 0 < get_cluster_size dp) (chain : IsChain dp c xs) (held : IsContent disk dp xs content)
    (h : length xs < fuel) where
  -- From a chain whose clusters can all be read, `readByFAT` gives the bytes of the range as far as the
  -- clusters have them, on more rounds than the chain has clusters and where the end of the range and one
  -- cluster fit in 32 bits.
  pub read_by_fat-content :
      (read_offset read_size : ℕ)
      → read_offset + read_size + get_cluster_size dp < 2 ^ 32
      → read_by_fat fuel disk dp c read_offset read_size
        ≡ some (take read_size (drop read_offset content))
  unfolding read_by_fat
  read_by_fat-content ro n small =
      let re : (ro + n) % 2 ^ 32 ≡ ro + n = omega arith in
      let start : get_cluster_size dp * 0 ≡ 0 = omega arith in
      let size : ro + n - max 0 ro ≡ n = omega arith in
      let from : ro - 0 ≡ ro = omega arith in
      ap (λ e. read_loop fuel disk dp ro e 0 c []) re
      ∙ ap (λ f. read_loop fuel disk dp ro (ro + n) f c []) (sym start)
      ∙ read_loop-content fuel (get_cluster_size dp) 0 ro (ro + n) c disk dp xs content [] refl pos
          chain held h (omega arith) small
      ∙ ap (λ f. some (left_to_read ro (ro + n) f content)) start
      ∙ ap some (ap₂ (λ a b. take a (drop b content)) size from)

  -- In a file whose size and one cluster together are less than 2 ^ 32, from an offset up to its end, where the
  -- table leads through clusters that can all be read, on more rounds than there are clusters, the task reads
  -- what the file has from the offset on, and no more than asked. In a longer file the end of the last cluster
  -- wraps to 0, and that cluster is not copied.
  pub read_file-within :
      (file_size offset input_size : ℕ)
      → offset ≤ file_size
      → file_size + get_cluster_size dp < 2 ^ 32
      → read_file fuel disk dp c file_size offset input_size
        ≡ some (take input_size (drop offset (take file_size content)))
  unfolding read_file read_file_size
  read_file-within fs ro n le small =
      let size : min n ((fs + 2 ^ 32 - ro) % 2 ^ 32) ≡ min n (fs - ro) = omega arith in
      read_by_fat-content ro (min n ((fs + 2 ^ 32 - ro) % 2 ^ 32)) (omega arith)
      ∙ ap some (
          ap (λ k. take k (drop ro content)) size
          ∙ sym (take-take n (fs - ro) (drop ro content))
          ∙ ap (take n) (sym (drop-take ro fs content)))

  -- Behind the end of the file, where the offset, the size asked for and one cluster together are less than
  -- 2 ^ 32, the difference wraps, and the task reads what stands in the clusters there.
  pub read_file-behind :
      (file_size offset input_size : ℕ)
      → file_size < offset
      → offset + input_size + get_cluster_size dp < 2 ^ 32
      → read_file fuel disk dp c file_size offset input_size
        ≡ some (take input_size (drop offset content))
  unfolding read_file read_file_size
  read_file-behind fs ro n lt small =
      let size : min n ((fs + 2 ^ 32 - ro) % 2 ^ 32) ≡ n = omega arith in
      ap (read_by_fat fuel disk dp c ro) size ∙ read_by_fat-content ro n small
