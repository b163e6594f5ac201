-- ===== src/Xdmac/Registers.antt =====
-- The register accessors of src/Xdmac/xdmac.c.
use taste_samx_rtems_runtime.Common.{
  ℕ, zero, suc, Option, none, some, ltb, bit_and, bit_or, if◌then◌else◌,
}
use taste_samx_rtems_runtime.Common.Word.{u8, u16, u32, ◌<<<◌, any_bit}
use taste_samx_rtems_runtime.Xdmac.Machine.{
  gtype, gcfg, gwac, gie, gid, gim, gis, ge, gd, gs, grs, gws, grws, grwr, gswr, gsws, gswf, cie,
  cid, cim, cis, csa, cda, cnda, cndc, cubc, cbc, cc, cds_msp, csus, cdus, M, pure, ◌>>=◌, ◌>>◌,
  assert, read, write,
}

abbrev pub channel_num : ℕ
channel_num = 24

abbrev pub in_range : ℕ → M (Unit {0})
in_range channel = assert (ltb channel channel_num)

-- `1u << n` in 32 bits.
abbrev pub bit : ℕ → ℕ
bit n = u32 (1 <<< n)

unfoldable pub get_type : M ℕ
get_type = read gtype

unfoldable pub get_config : M ℕ
get_config = read gcfg

unfoldable pub get_arbiter : M ℕ
get_arbiter = read gwac

unfoldable pub enable_git : ℕ → M (Unit {0})
enable_git mask = write gie (bit mask)

unfoldable pub disable_git : ℕ → M (Unit {0})
disable_git mask = write gid (bit mask)

unfoldable pub get_git_mask : M ℕ
get_git_mask = read gim

unfoldable pub get_gisr : M ℕ
get_gisr = read gis

unfoldable pub get_masked_gisr : M ℕ
get_masked_gisr = do status ← read gis; mask ← read gim; pure (bit_and status mask)

unfoldable pub enable_channel : ℕ → M (Unit {0})
enable_channel ch = do in_range ch; write ge (bit ch)

unfoldable pub enable_channels : ℕ → M (Unit {0})
enable_channels bitmap = write ge bitmap

unfoldable pub disable_channel : ℕ → M (Unit {0})
disable_channel ch = do in_range ch; write gd (bit ch)

unfoldable pub disable_channels : ℕ → M (Unit {0})
disable_channels bitmap = write gd bitmap

unfoldable pub get_global_ch_status : M ℕ
get_global_ch_status = read gs

unfoldable pub suspend_read_channel : ℕ → M (Unit {0})
suspend_read_channel ch = do in_range ch; old ← read grs; write grs (bit_or old (bit ch))

unfoldable pub suspend_write_channel : ℕ → M (Unit {0})
suspend_write_channel ch = do in_range ch; old ← read gws; write gws (bit_or old (bit ch))

unfoldable pub suspend_read_write_channel : ℕ → M (Unit {0})
suspend_read_write_channel ch = do in_range ch; write grws (bit ch)

unfoldable pub resume_read_write_channel : ℕ → M (Unit {0})
resume_read_write_channel ch = do in_range ch; write grwr (bit ch)

unfoldable pub software_transfer_req : ℕ → M (Unit {0})
software_transfer_req ch = do in_range ch; write gswr (bit ch)

unfoldable pub get_software_transfer_status : M ℕ
get_software_transfer_status = read gsws

unfoldable pub enable_channel_it : ℕ → ℕ → M (Unit {0})
enable_channel_it ch mask = do in_range ch; write (cie ch) mask

unfoldable pub disable_channel_it : ℕ → ℕ → M (Unit {0})
disable_channel_it ch mask = do in_range ch; write (cid ch) mask

unfoldable pub get_channel_it_mask : ℕ → M ℕ
get_channel_it_mask ch = do in_range ch; read (cim ch)

unfoldable pub get_channel_isr : ℕ → M ℕ
get_channel_isr ch = do in_range ch; read (cis ch)

unfoldable pub get_mask_channel_isr : ℕ → M ℕ
get_mask_channel_isr ch = do
  in_range ch
  status ← read (cis ch)
  mask ← read (cim ch)
  pure (bit_and status mask)

abbrev pub cis_bis : ℕ
cis_bis = 1

abbrev pub cis_lis : ℕ
cis_lis = 2

abbrev pub cis_dis : ℕ
cis_dis = 4

abbrev pub cis_fis : ℕ
cis_fis = 8

abbrev pub cim_lim : ℕ
cim_lim = 2

-- `while (!(XDMAC_GetChannelIsr(...) & XDMAC_CIS_FIS));`, with fuel: `none` in the result means that
-- the fuel ran out before the flush was reported.
unfoldable pub await_flush : ℕ → ℕ → M (Option (Unit {0}))
await_flush zero ch = pure none
await_flush (suc fuel) ch = do
  status ← get_channel_isr ch
  let again = await_flush fuel ch
  if any_bit status cis_fis then pure (some tt) else again

unfoldable pub software_flush_req : ℕ → ℕ → M (Option (Unit {0}))
software_flush_req fuel ch = do in_range ch; write gswf (bit ch); await_flush fuel ch

unfoldable pub set_source_addr : ℕ → ℕ → M (Unit {0})
set_source_addr ch addr = do in_range ch; write (csa ch) addr

unfoldable pub set_destination_addr : ℕ → ℕ → M (Unit {0})
set_destination_addr ch addr = do in_range ch; write (cda ch) addr

unfoldable pub set_descriptor_addr : ℕ → ℕ → ℕ → M (Unit {0})
set_descriptor_addr ch addr ndaif = do
  assert (ltb ndaif 2)
  in_range ch
  write (cnda ch) (bit_or (bit_and addr 0xFFFFFFFC) ndaif)

-- The parameter is a `uint8_t`.
unfoldable pub set_descriptor_control : ℕ → ℕ → M (Unit {0})
set_descriptor_control ch config = do in_range ch; write (cndc ch) (u8 config)

unfoldable pub set_microblock_control : ℕ → ℕ → M (Unit {0})
set_microblock_control ch ublen = do in_range ch; write (cubc ch) (bit_and 0xffffff ublen)

-- The parameter is a `uint16_t`.
unfoldable pub set_block_control : ℕ → ℕ → M (Unit {0})
set_block_control ch blen = do in_range ch; write (cbc ch) (bit_and 0xfff (u16 blen))

unfoldable pub set_channel_config : ℕ → ℕ → M (Unit {0})
set_channel_config ch config = do in_range ch; write (cc ch) config

unfoldable pub get_channel_config : ℕ → M ℕ
get_channel_config ch = do in_range ch; read (cc ch)

unfoldable pub set_data_stride_mem_pattern : ℕ → ℕ → M (Unit {0})
set_data_stride_mem_pattern ch dds_msp = do in_range ch; write (cds_msp ch) dds_msp

unfoldable pub set_source_micro_block_stride : ℕ → ℕ → M (Unit {0})
set_source_micro_block_stride ch subs = do in_range ch; write (csus ch) (bit_and 0xffffff subs)

unfoldable pub set_destination_micro_block_stride : ℕ → ℕ → M (Unit {0})
set_destination_micro_block_stride ch dubs = do in_range ch; write (cdus ch) (bit_and 0xffffff dubs)

unfoldable pub get_ch_destination_addr : ℕ → M ℕ
get_ch_destination_addr ch = do in_range ch; read (cda ch)
