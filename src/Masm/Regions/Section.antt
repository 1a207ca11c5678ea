-- ===== src/Masm/Regions/Section.antt =====
-- src/libisa/masm/elf/pack.tpp: the regions of the lines of a section, macros included.
